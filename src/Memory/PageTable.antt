-- ===== src/Memory/PageTable.antt =====
-- kernel/src/memory/page_table.rs: the four-level page tables. The tables are a store from the
-- address of a table and an index to the entry's word.
pub mod Entry
pub mod Tables
pub mod Changes
pub mod Targets
pub mod Frames
pub mod Walk
pub mod Writes
pub mod MapTo
pub mod Mappings
pub mod Unmap
pub mod SetFlags
pub mod Rounds
mod Tests
