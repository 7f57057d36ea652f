-- ===== src/Ext2/Layouts.antt =====
-- The packed structures of kernel/src/fs/ext2/{inode,block_group}.rs in bytes.
use rust_os.Prelude.{ℕ, refl, List}
use rust_os.Transmute.{Layout}
use rust_os.Transmute.Layouts.{word, ◌⊗◌, ◌&◌, ◌⊕◌, array, as_struct}
use rust_os.Ext2.{Inode, BlockGroupDescriptor}

abbrev pub to_block_group_descriptor : ℕ ⊗ ℕ ⊗ ℕ ⊗ ℕ ⊗ ℕ ⊗ ℕ ⊗ ℕ ⊗ List ℕ → BlockGroupDescriptor
to_block_group_descriptor
      (block_bitmap & inode_bitmap & inode_table & free_blocks_count & free_inodes_count
        & used_dirs_count & pad & reserved) =
    record {
      block_bitmap = block_bitmap;
      inode_bitmap = inode_bitmap;
      inode_table = inode_table;
      free_blocks_count = free_blocks_count;
      free_inodes_count = free_inodes_count;
      used_dirs_count = used_dirs_count;
      pad = pad;
      reserved = reserved;
    }

abbrev pub block_group_descriptor_fields : BlockGroupDescriptor → ℕ ⊗ ℕ ⊗ ℕ ⊗ ℕ ⊗ ℕ ⊗ ℕ ⊗ ℕ ⊗ List ℕ
block_group_descriptor_fields t =
    t.block_bitmap & t.inode_bitmap & t.inode_table & t.free_blocks_count & t.free_inodes_count
    & t.used_dirs_count & t.pad & t.reserved

unfoldable pub block_group_descriptor_layout : Layout BlockGroupDescriptor
block_group_descriptor_layout =
    as_struct (word 4 ⊕ word 4 ⊕ word 4 ⊕ word 2 ⊕ word 2 ⊕ word 2 ⊕ word 2 ⊕ array (word 1) 12)
      to_block_group_descriptor block_group_descriptor_fields (λ t. refl)

abbrev pub to_inode :
    ℕ ⊗ ℕ ⊗ ℕ ⊗ ℕ ⊗ ℕ ⊗ ℕ ⊗ ℕ ⊗ ℕ ⊗ ℕ ⊗ ℕ ⊗ ℕ ⊗ ℕ ⊗ List ℕ ⊗ ℕ ⊗ ℕ ⊗ ℕ ⊗ ℕ ⊗ ℕ ⊗ ℕ ⊗ ℕ ⊗ List ℕ
    → Inode
to_inode
      (mode & uid & size_low & atime & ctime & mtime & dtime & gid & links_count & blocks & flags
        & osd1 & direct_blocks & singly_indirect_block & doubly_indirect_block
        & triply_indirect_block & generation & file_acl & size_high & faddr & osd2) =
    record {
      mode = mode;
      uid = uid;
      size_low = size_low;
      atime = atime;
      ctime = ctime;
      mtime = mtime;
      dtime = dtime;
      gid = gid;
      links_count = links_count;
      blocks = blocks;
      flags = flags;
      osd1 = osd1;
      direct_blocks = direct_blocks;
      singly_indirect_block = singly_indirect_block;
      doubly_indirect_block = doubly_indirect_block;
      triply_indirect_block = triply_indirect_block;
      generation = generation;
      file_acl = file_acl;
      size_high = size_high;
      faddr = faddr;
      osd2 = osd2;
    }

abbrev pub inode_fields :
    Inode
    → ℕ ⊗ ℕ ⊗ ℕ ⊗ ℕ ⊗ ℕ ⊗ ℕ ⊗ ℕ ⊗ ℕ ⊗ ℕ ⊗ ℕ ⊗ ℕ ⊗ ℕ ⊗ List ℕ ⊗ ℕ ⊗ ℕ ⊗ ℕ ⊗ ℕ ⊗ ℕ ⊗ ℕ ⊗ ℕ ⊗ List ℕ
inode_fields t =
    t.mode & t.uid & t.size_low & t.atime & t.ctime & t.mtime & t.dtime & t.gid & t.links_count
    & t.blocks & t.flags & t.osd1 & t.direct_blocks & t.singly_indirect_block
    & t.doubly_indirect_block & t.triply_indirect_block & t.generation & t.file_acl & t.size_high
    & t.faddr & t.osd2

unfoldable pub inode_layout : Layout Inode
inode_layout =
    as_struct
      (word 2
        ⊕ word 2
        ⊕ word 4
        ⊕ word 4
        ⊕ word 4
        ⊕ word 4
        ⊕ word 4
        ⊕ word 2
        ⊕ word 2
        ⊕ word 4
        ⊕ word 4
        ⊕ word 4
        ⊕ array (word 4) 12
        ⊕ word 4
        ⊕ word 4
        ⊕ word 4
        ⊕ word 4
        ⊕ word 4
        ⊕ word 4
        ⊕ word 4
        ⊕ array (word 1) 12)
      to_inode inode_fields (λ t. refl)

-- A `BlockAddress`.
unfoldable pub block_address_layout : Layout ℕ
block_address_layout = word 4
