-- ===== src/Ext2/SuperblockLayout.antt =====
-- The superblock of kernel/src/fs/ext2/superblock.rs in bytes.
use rust_os.Prelude.{ℕ, refl, List}
use rust_os.Transmute.{Layout}
use rust_os.Transmute.Layouts.{word, ◌⊗◌, ◌&◌, ◌⊕◌, array, as_struct}
use rust_os.Ext2.{Superblock}

abbrev pub to_superblock :
    ℕ
      ⊗ ℕ
      ⊗ ℕ
      ⊗ ℕ
      ⊗ ℕ
      ⊗ ℕ
      ⊗ ℕ
      ⊗ ℕ
      ⊗ ℕ
      ⊗ ℕ
      ⊗ ℕ
      ⊗ ℕ
      ⊗ ℕ
      ⊗ ℕ
      ⊗ ℕ
      ⊗ ℕ
      ⊗ ℕ
      ⊗ ℕ
      ⊗ ℕ
      ⊗ ℕ
      ⊗ ℕ
      ⊗ ℕ
      ⊗ ℕ
      ⊗ ℕ
      ⊗ ℕ
      ⊗ ℕ
      ⊗ ℕ
      ⊗ ℕ
      ⊗ ℕ
      ⊗ ℕ
      ⊗ ℕ
      ⊗ List ℕ
      ⊗ List ℕ
      ⊗ List ℕ
      ⊗ ℕ
      ⊗ ℕ
      ⊗ ℕ
      ⊗ ℕ
      ⊗ List ℕ
      ⊗ ℕ
      ⊗ ℕ
      ⊗ ℕ
      ⊗ List ℕ
      ⊗ ℕ
      ⊗ List ℕ
      ⊗ ℕ
      ⊗ ℕ
    → Superblock
to_superblock
      (inodes_count & blocks_count & reserved_blocks_count & free_blocks_count & free_inodes_count
        & first_data_block & log_block_size & log_frag_size & blocks_per_group & frags_per_group
        & inodes_per_group & mount_time & write_time & mount_count & max_mount_count & magic & state
        & errors & minor_rev_level & lastcheck & checkinterval & creator_os & rev_level & def_resuid
        & def_resgid & first_ino & inode_size & block_group_nr & feature_compat & feature_incompat
        & feature_ro_compat & uuid & volume_name & last_mounted & algo_bitmap & prealloc_blocks
        & prealloc_dir_blocks & padding1 & journal_uuid & journal_inum & journal_dev & last_orphan
        & hash_seed & def_hash_version & padding2 & default_mount_options & first_meta_bg) =
    record {
      inodes_count = inodes_count;
      blocks_count = blocks_count;
      reserved_blocks_count = reserved_blocks_count;
      free_blocks_count = free_blocks_count;
      free_inodes_count = free_inodes_count;
      first_data_block = first_data_block;
      log_block_size = log_block_size;
      log_frag_size = log_frag_size;
      blocks_per_group = blocks_per_group;
      frags_per_group = frags_per_group;
      inodes_per_group = inodes_per_group;
      mount_time = mount_time;
      write_time = write_time;
      mount_count = mount_count;
      max_mount_count = max_mount_count;
      magic = magic;
      state = state;
      errors = errors;
      minor_rev_level = minor_rev_level;
      lastcheck = lastcheck;
      checkinterval = checkinterval;
      creator_os = creator_os;
      rev_level = rev_level;
      def_resuid = def_resuid;
      def_resgid = def_resgid;
      first_ino = first_ino;
      inode_size = inode_size;
      block_group_nr = block_group_nr;
      feature_compat = feature_compat;
      feature_incompat = feature_incompat;
      feature_ro_compat = feature_ro_compat;
      uuid = uuid;
      volume_name = volume_name;
      last_mounted = last_mounted;
      algo_bitmap = algo_bitmap;
      prealloc_blocks = prealloc_blocks;
      prealloc_dir_blocks = prealloc_dir_blocks;
      padding1 = padding1;
      journal_uuid = journal_uuid;
      journal_inum = journal_inum;
      journal_dev = journal_dev;
      last_orphan = last_orphan;
      hash_seed = hash_seed;
      def_hash_version = def_hash_version;
      padding2 = padding2;
      default_mount_options = default_mount_options;
      first_meta_bg = first_meta_bg;
    }

abbrev pub superblock_fields :
    Superblock
    → ℕ
      ⊗ ℕ
      ⊗ ℕ
      ⊗ ℕ
      ⊗ ℕ
      ⊗ ℕ
      ⊗ ℕ
      ⊗ ℕ
      ⊗ ℕ
      ⊗ ℕ
      ⊗ ℕ
      ⊗ ℕ
      ⊗ ℕ
      ⊗ ℕ
      ⊗ ℕ
      ⊗ ℕ
      ⊗ ℕ
      ⊗ ℕ
      ⊗ ℕ
      ⊗ ℕ
      ⊗ ℕ
      ⊗ ℕ
      ⊗ ℕ
      ⊗ ℕ
      ⊗ ℕ
      ⊗ ℕ
      ⊗ ℕ
      ⊗ ℕ
      ⊗ ℕ
      ⊗ ℕ
      ⊗ ℕ
      ⊗ List ℕ
      ⊗ List ℕ
      ⊗ List ℕ
      ⊗ ℕ
      ⊗ ℕ
      ⊗ ℕ
      ⊗ ℕ
      ⊗ List ℕ
      ⊗ ℕ
      ⊗ ℕ
      ⊗ ℕ
      ⊗ List ℕ
      ⊗ ℕ
      ⊗ List ℕ
      ⊗ ℕ
      ⊗ ℕ
superblock_fields t =
    t.inodes_count & t.blocks_count & t.reserved_blocks_count & t.free_blocks_count
    & t.free_inodes_count & t.first_data_block & t.log_block_size & t.log_frag_size
    & t.blocks_per_group & t.frags_per_group & t.inodes_per_group & t.mount_time & t.write_time
    & t.mount_count & t.max_mount_count & t.magic & t.state & t.errors & t.minor_rev_level
    & t.lastcheck & t.checkinterval & t.creator_os & t.rev_level & t.def_resuid & t.def_resgid
    & t.first_ino & t.inode_size & t.block_group_nr & t.feature_compat & t.feature_incompat
    & t.feature_ro_compat & t.uuid & t.volume_name & t.last_mounted & t.algo_bitmap
    & t.prealloc_blocks & t.prealloc_dir_blocks & t.padding1 & t.journal_uuid & t.journal_inum
    & t.journal_dev & t.last_orphan & t.hash_seed & t.def_hash_version & t.padding2
    & t.default_mount_options & t.first_meta_bg

unfoldable pub superblock_layout : Layout Superblock
superblock_layout =
    as_struct
      (word 4
        ⊕ word 4
        ⊕ word 4
        ⊕ word 4
        ⊕ word 4
        ⊕ word 4
        ⊕ word 4
        ⊕ word 4
        ⊕ word 4
        ⊕ word 4
        ⊕ word 4
        ⊕ word 4
        ⊕ word 4
        ⊕ word 2
        ⊕ word 2
        ⊕ word 2
        ⊕ word 2
        ⊕ word 2
        ⊕ word 2
        ⊕ word 4
        ⊕ word 4
        ⊕ word 4
        ⊕ word 4
        ⊕ word 2
        ⊕ word 2
        ⊕ word 4
        ⊕ word 2
        ⊕ word 2
        ⊕ word 4
        ⊕ word 4
        ⊕ word 4
        ⊕ array (word 1) 16
        ⊕ array (word 1) 16
        ⊕ array (word 1) 64
        ⊕ word 4
        ⊕ word 1
        ⊕ word 1
        ⊕ word 2
        ⊕ array (word 1) 16
        ⊕ word 4
        ⊕ word 4
        ⊕ word 4
        ⊕ array (word 4) 4
        ⊕ word 1
        ⊕ array (word 1) 3
        ⊕ word 4
        ⊕ word 4)
      to_superblock superblock_fields (λ t. refl)
