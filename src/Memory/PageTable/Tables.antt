-- ===== src/Memory/PageTable/Tables.antt =====
-- kernel/src/memory/page_table.rs: `PageTable`, `PageTableIndex` and the operations of
-- `Level4PageTable`. Each `loop` runs on fuel, one unit for each level.
use rust_os.Prelude.{
  ℕ, zero, suc, ◌+◌, ◌-◌, ◌*◌, ◌/◌, ◌%◌, ◌^◌, bit_and, bit_or, ◌&&◌, Option, none, some, ltb, ◌==◌,
  if◌then◌else◌, Exec, ret, panic, ◌>>=◌, assert, Result, ok, err, ◌>>◌,
}
use rust_os.BitmapAlloc.{BitmapAllocator}
use rust_os.Memory.{
  AddressLibrary, Page, PageSize, size_bytes, page_size, to_phys_addr, allocate_page,
}
use rust_os.Memory.PageTable.Entry.{
  present, writable, user_accessible, PageTableLevel, level1, level2, level3, level4,
  next_lower_level, PageTableTarget, unmapped, page, next_table, set_flags as set_entry_flags,
  set_address, target_inner, set_target_page,
}

-- What the operations change: the entry at an index of the table at an address, and the allocator
-- of physical pages.
abbrev pub Tables : Type 0
Tables = ℕ → ℕ → ℕ

pub record Memory : Type 0 where
  pub tables : Tables
  pub allocator : BitmapAllocator

unfoldable pub write_entry : Tables → ℕ → ℕ → ℕ → Tables
write_entry tables table index entry = λ t i. if t == table && i == index then entry else tables t i

-- `Page::zero` on the page that holds a table.
unfoldable pub zero_table : Tables → ℕ → Tables
zero_table tables table = λ t i. if t == table then 0 else tables t i

abbrev pub num_page_table_entries : ℕ
num_page_table_entries = 512

-- `u64::from(level as u16)`.
abbrev pub number : PageTableLevel → ℕ
number level1 = 1
number level2 = 2
number level3 = 3
number level4 = 4

unfoldable pub new_index : ℕ → Exec ℕ
new_index index = do assert (ltb index num_page_table_entries); ret index

unfoldable pub from_address : PageTableLevel → ℕ → Exec ℕ
from_address level addr =
    new_index (bit_and (addr / 2 ^ (12 + (number level - 1) * 9)) 0b111111111 % 2 ^ 16)

pub data TranslateResult : Type 0 where
  not_mapped : TranslateResult
  mapped : Page → ℕ → ℕ → TranslateResult

pub data MapTarget : Type 0 where
  existing_phys_page : Page → MapTarget
  new_phys_page : MapTarget

pub data MapError : Type 0 where
  physical_page_allocation_failed : MapError
  page_already_mapped : Page → ℕ → MapError

abbrev pub parent_flags : ℕ → ℕ
parent_flags f = bit_and f (bit_or (bit_or present writable) user_accessible)

module _ (lib : AddressLibrary) where
  -- The start of each round: the index, and the target of the entry there.
  unfoldable pub address_target : Tables → PageTableLevel → ℕ → ℕ → Exec (ℕ × PageTableTarget)
  address_target tables level table addr = do
    index ← from_address level addr
    target ← target_inner lib (tables table index) level
    ret (index, target)

  unfoldable pub translate_step :
      (PageTableLevel → ℕ → Exec TranslateResult) → ℕ → PageTableTarget → Exec TranslateResult
  translate_step again addr unmapped = ret not_mapped
  translate_step again addr (page p f) = ret (mapped p f (addr % size_bytes p.size))
  translate_step again addr (next_table level table) = again level table

  unfoldable pub translate_loop : ℕ → Tables → ℕ → PageTableLevel → ℕ → Exec TranslateResult
  translate_loop zero tables addr level table = panic
  translate_loop (suc fuel) tables addr level table = do
    (_, target) ← address_target tables level table addr
    translate_step (translate_loop fuel tables addr) addr target

  unfoldable pub translate_address : Tables → ℕ → ℕ → Exec TranslateResult
  translate_address tables root addr = translate_loop 4 tables addr level4 root

  unfoldable pub get_target_page :
      MapTarget → BitmapAllocator → PageSize → Exec (Option Page × BitmapAllocator)
  get_target_page (existing_phys_page p) a target_page_size = do
    assert (size_bytes p.size == size_bytes target_page_size)
    ret (some p, a)
  get_target_page new_phys_page a target_page_size = do
    assert (size_bytes target_page_size == page_size)
    allocate_page lib a

  -- `allocate_and_map_child_table` on the entry at `index` of `table`; it returns the new table.
  unfoldable pub map_child_table :
      Memory → ℕ → ℕ → ℕ → Option Page × BitmapAllocator → Exec (Option ℕ × Memory)
  map_child_table m table index f (none, a) =
      ret (none, record { tables = m.tables; allocator = a })
  map_child_table m table index f (some p, a) = do
    let zeroed = zero_table m.tables p.start_addr
    phys ← to_phys_addr lib p.start_addr
    entry ← set_address (zeroed table index) phys
    let tables = write_entry zeroed table index (set_entry_flags entry (bit_or f present))
    ret (some p.start_addr, record { tables = tables; allocator = a })

  unfoldable pub allocate_and_map_child_table : Memory → ℕ → ℕ → ℕ → Exec (Option ℕ × Memory)
  allocate_and_map_child_table m table index f =
      allocate_page lib m.allocator >>= map_child_table m table index f

  -- The lowest level: the entry gets the target page.
  unfoldable pub map_page :
      Memory → ℕ → ℕ → ℕ → Option Page × BitmapAllocator → Exec (Result Page MapError × Memory)
  map_page m table index f (none, a) =
      ret (err physical_page_allocation_failed, record { tables = m.tables; allocator = a })
  map_page m table index f (some p, a) = do
    entry ← set_target_page lib (m.tables table index) p f
    ret (ok p, record { tables = write_entry m.tables table index entry; allocator = a })

  unfoldable pub map_below :
      (PageTableLevel → ℕ → Memory → Exec (Result Page MapError × Memory))
      → PageTableLevel
      → Option ℕ × Memory
      → Exec (Result Page MapError × Memory)
  map_below again level (none, m) = ret (err physical_page_allocation_failed, m)
  map_below again level (some table, m) = again level table m

  module _ (p : Page) (map_target : MapTarget) (f : ℕ) where
    unfoldable pub map_unmapped :
        (PageTableLevel → ℕ → Memory → Exec (Result Page MapError × Memory))
        → Memory
        → ℕ
        → ℕ
        → Option PageTableLevel
        → Exec (Result Page MapError × Memory)
    map_unmapped again m table index none =
        get_target_page map_target m.allocator p.size >>= map_page m table index f
    map_unmapped again m table index (some level) =
        allocate_and_map_child_table m table index (parent_flags f) >>= map_below again level

    unfoldable pub map_step :
        (PageTableLevel → ℕ → Memory → Exec (Result Page MapError × Memory))
        → Memory
        → PageTableLevel
        → ℕ
        → ℕ × PageTableTarget
        → Exec (Result Page MapError × Memory)
    map_step again m level table (index, unmapped) =
        map_unmapped again m table index (next_lower_level level)
    map_step again m level table (index, page q g) = ret (err (page_already_mapped q g), m)
    map_step again m level table (index, next_table lower child) = again lower child m

    unfoldable pub map_loop : ℕ → PageTableLevel → ℕ → Memory → Exec (Result Page MapError × Memory)
    map_loop zero level table m = panic
    map_loop (suc fuel) level table m =
        address_target m.tables level table p.start_addr >>= map_step (map_loop fuel) m level table

    unfoldable pub map_to : ℕ → Memory → Exec (Result Page MapError × Memory)
    map_to root m = map_loop 4 level4 root m
