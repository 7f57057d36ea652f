-- ===== src/Ext2/Fixture.antt =====
-- Data of the tests: a file system with blocks of 1024 bytes and inodes of 128.
use rust_os.Prelude.{◌∷◌, replicate}
use rust_os.Ext2.{Superblock, Inode, BlockGroupDescriptor}

abbrev pub superblock : Superblock
superblock = record {
  inodes_count = 0;
  blocks_count = 20000;
  reserved_blocks_count = 0;
  free_blocks_count = 0;
  free_inodes_count = 0;
  first_data_block = 1;
  log_block_size = 0;
  log_frag_size = 0;
  blocks_per_group = 8192;
  frags_per_group = 0;
  inodes_per_group = 1712;
  mount_time = 0;
  write_time = 0;
  mount_count = 0;
  max_mount_count = 0;
  magic = 61267;
  state = 0;
  errors = 0;
  minor_rev_level = 0;
  lastcheck = 0;
  checkinterval = 0;
  creator_os = 0;
  rev_level = 1;
  def_resuid = 0;
  def_resgid = 0;
  first_ino = 0;
  inode_size = 128;
  block_group_nr = 0;
  feature_compat = 0;
  feature_incompat = 0;
  feature_ro_compat = 0;
  uuid = replicate 16 0;
  volume_name = replicate 16 0;
  last_mounted = replicate 64 0;
  algo_bitmap = 0;
  prealloc_blocks = 0;
  prealloc_dir_blocks = 0;
  padding1 = 0;
  journal_uuid = replicate 16 0;
  journal_inum = 0;
  journal_dev = 0;
  last_orphan = 0;
  hash_seed = replicate 4 0;
  def_hash_version = 0;
  padding2 = replicate 3 0;
  default_mount_options = 0;
  first_meta_bg = 0;
}

abbrev pub descriptor : BlockGroupDescriptor
descriptor = record {
  block_bitmap = 3;
  inode_bitmap = 4;
  inode_table = 5;
  free_blocks_count = 0;
  free_inodes_count = 0;
  used_dirs_count = 0;
  pad = 0;
  reserved = replicate 12 0;
}

-- A regular file of 5 bytes in block 700.
abbrev pub file : Inode
file = record {
  mode = 33152;
  uid = 0;
  size_low = 5;
  atime = 0;
  ctime = 0;
  mtime = 0;
  dtime = 0;
  gid = 0;
  links_count = 1;
  blocks = 2;
  flags = 0;
  osd1 = 0;
  direct_blocks = 700 ∷ replicate 11 0;
  singly_indirect_block = 0;
  doubly_indirect_block = 0;
  triply_indirect_block = 0;
  generation = 0;
  file_acl = 0;
  size_high = 0;
  faddr = 0;
  osd2 = replicate 12 0;
}
