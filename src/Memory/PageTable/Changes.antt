-- ===== src/Memory/PageTable/Changes.antt =====
-- kernel/src/memory/page_table.rs: the operations of `Level4PageTable` that change entries that
-- are there: `set_flags`, `unmap`, and the set-up of the kernel's table.
use rust_os.Prelude.{
  ℕ, zero, suc, ◌+◌, bit_or, Bool, Option, ◌==◌, if◌then◌else◌, Exec, ret, panic, ◌>>=◌, expect,
  Result, ok, err,
}
use rust_os.BitmapAlloc.{BitmapAllocator}
use rust_os.Memory.{AddressLibrary, Page, PageSize, size_bytes, free_page, allocate_page}
use rust_os.Memory.PageTable.Entry.{
  present, writable, PageTableLevel, level4, PageTableTarget, unmapped, page, next_table,
  set_flags as set_entry_flags, clear, target_inner,
}
use rust_os.Memory.PageTable.Tables.{
  Tables, Memory, write_entry, address_target, allocate_and_map_child_table,
}

pub data SetFlagsError : Type 0 where
  page_not_mapped : SetFlagsError

pub data UnmapError : Type 0 where
  page_not_mapped : UnmapError
  page_wrong_size : PageSize → PageSize → UnmapError

module _ (lib : AddressLibrary) where
  module _ (f : ℕ) where
    unfoldable pub set_flags_step :
        (PageTableLevel → ℕ → Exec (Result (Unit {0}) SetFlagsError × Tables))
        → Tables
        → ℕ
        → ℕ × PageTableTarget
        → Exec (Result (Unit {0}) SetFlagsError × Tables)
    set_flags_step again tables table (index, unmapped) =
        ret (err SetFlagsError.page_not_mapped, tables)
    set_flags_step again tables table (index, page q g) =
        ret (ok tt, write_entry tables table index (set_entry_flags (tables table index) f))
    set_flags_step again tables table (index, next_table lower child) = again lower child

    unfoldable pub set_flags_loop :
        ℕ → Tables → ℕ → PageTableLevel → ℕ → Exec (Result (Unit {0}) SetFlagsError × Tables)
    set_flags_loop zero tables start level table = panic
    set_flags_loop (suc fuel) tables start level table =
        address_target lib tables level table start
        >>= set_flags_step (set_flags_loop fuel tables start) tables table

    unfoldable pub set_flags : Tables → ℕ → Page → Exec (Result (Unit {0}) SetFlagsError × Tables)
    set_flags tables root p = set_flags_loop 4 tables p.start_addr level4 root

  module _ (p : Page) (free_physical_page : Bool) where
    unfoldable pub freed : Page → BitmapAllocator → Exec BitmapAllocator
    freed target a = if free_physical_page then free_page lib a target else ret a

    -- The leaf of the walk.
    unfoldable pub unmap_page_at : Memory → ℕ → ℕ → Page → Exec (Result Page UnmapError × Memory)
    unmap_page_at m table index target =
        if size_bytes target.size == size_bytes p.size
        then (do
          a ← freed target m.allocator
          let tables = write_entry m.tables table index (clear (m.tables table index))
          ret (ok target, record { tables = tables; allocator = a }))
        else ret (err (page_wrong_size p.size target.size), m)

    unfoldable pub unmap_step :
        (PageTableLevel → ℕ → Exec (Result Page UnmapError × Memory))
        → Memory
        → ℕ
        → ℕ × PageTableTarget
        → Exec (Result Page UnmapError × Memory)
    unmap_step again m table (index, unmapped) = ret (err UnmapError.page_not_mapped, m)
    unmap_step again m table (index, page q g) = unmap_page_at m table index q
    unmap_step again m table (index, next_table lower child) = again lower child

    unfoldable pub unmap_loop :
        ℕ → Memory → PageTableLevel → ℕ → Exec (Result Page UnmapError × Memory)
    unmap_loop zero m level table = panic
    unmap_loop (suc fuel) m level table =
        address_target lib m.tables level table p.start_addr
        >>= unmap_step (unmap_loop fuel m) m table

    unfoldable pub unmap : Memory → ℕ → Exec (Result Page UnmapError × Memory)
    unmap m root = unmap_loop 4 m level4 root

  -- `fill_top_half_entries` on the entry at `index`, then on the entries above it; `left` counts
  -- them.
  unfoldable pub fill_entry : Memory → ℕ → ℕ → PageTableTarget → Exec Memory
  fill_entry m root index unmapped = do
    (child, m') ← allocate_and_map_child_table lib m root index (bit_or present writable)
    _ ← expect child
    ret m'
  fill_entry m root index (page q g) = panic
  fill_entry m root index (next_table lower child) = ret (record {
    tables =
        write_entry m.tables root index
          (set_entry_flags (m.tables root index) (bit_or present writable));
    allocator = m.allocator;
  })

  unfoldable pub fill_entries : ℕ → ℕ → ℕ → Memory → Exec Memory
  fill_entries zero root index m = ret m
  fill_entries (suc left) root index m = do
    target ← target_inner lib (m.tables root index) level4
    m' ← fill_entry m root index target
    fill_entries left root (index + 1) m'

  unfoldable pub fill_top_half_entries : ℕ → Memory → Exec Memory
  fill_top_half_entries root m = fill_entries 256 root 256 m

  -- `allocate_clone`: the address of the new table.
  unfoldable pub cloned : ℕ → Memory → Option Page × BitmapAllocator → Exec (ℕ × Memory)
  cloned root m (p, a) = do
    new_table ← expect p
    let tables =
        λ (t : ℕ) (i : ℕ). if t == new_table.start_addr then m.tables root i else m.tables t i
    ret (new_table.start_addr, record { tables = tables; allocator = a })

  unfoldable pub allocate_clone : ℕ → Memory → Exec (ℕ × Memory)
  allocate_clone root m = allocate_page lib m.allocator >>= cloned root m

-- The entries below `n` are cleared.
unfoldable pub clear_entries : ℕ → ℕ → Tables → Tables
clear_entries zero root tables = tables
clear_entries (suc n) root tables =
    let t = clear_entries n root tables in write_entry t root n (clear (t root n))

unfoldable pub unmap_lower_half : ℕ → Tables → Tables
unmap_lower_half root tables = clear_entries 256 root tables
