-- ===== src/Memory.antt =====
-- kernel/src/memory: addresses, pages and the physical page allocator. `PhysAddr::new` and
-- `align_down` are functions of the x86_64 crate, taken as parameters.
pub mod Ranges
pub mod Physical
pub mod PageTable
pub mod Mapping
mod Tests
use rust_os.Prelude.{
  ℕ, ◌+◌, ◌-◌, ◌*◌, ◌/◌, ◌%◌, ◌^◌, ◌<◌, ◌≡◌, true, false, ◌&&◌, Option, none, some, ltb, leb, ◌==◌,
  if◌then◌else◌, Exec, ret, panic, ◌>>=◌, assert, expect, add_u64, div_ceil, ◌>>◌,
}
use rust_os.BitmapAlloc.{BitmapAllocator, allocate_contiguous, free_contiguous}

-- The kernel's window onto physical memory.
abbrev pub kernel_physical_mapping_start : ℕ
kernel_physical_mapping_start = 18446603336221196288

abbrev pub kernel_physical_mapping_end : ℕ
kernel_physical_mapping_end = 18446664322466150263

abbrev pub page_size : ℕ
page_size = 4096

-- What is used of the x86_64 crate: aligning down to a power of two, and `PhysAddr::new`, which
-- accepts every address of 52 bits.
pub record AddressLibrary : Type 0 where
  pub align_down : ℕ → ℕ → ℕ
  pub phys_addr : ℕ → Exec ℕ
  pub align_down_lem : (a k : ℕ) → align_down a (2 ^ k) ≡ a - a % 2 ^ k
  pub phys_addr_lem : (a : ℕ) → a < 2 ^ 52 → phys_addr a ≡ ret a

-- `KernPhysAddr` is the `u64` inside; `new` checks the window.
unfoldable pub kern_phys_addr : ℕ → Exec ℕ
kern_phys_addr addr = do
  assert (leb kernel_physical_mapping_start addr && leb addr kernel_physical_mapping_end)
  ret addr

unfoldable pub from_phys_addr : ℕ → Exec ℕ
from_phys_addr addr = add_u64 addr kernel_physical_mapping_start >>= kern_phys_addr

-- `addr + rhs` for `rhs : usize`.
unfoldable pub add_usize : ℕ → ℕ → Exec ℕ
add_usize addr rhs = add_u64 addr rhs >>= kern_phys_addr

pub data PageSize : Type 0 where
  size4_kib : PageSize
  size2_mib : PageSize
  size1_gib : PageSize

abbrev pub size_bytes : PageSize → ℕ
size_bytes size4_kib = 4096
size_bytes size2_mib = 2 * 1024 * 1024
size_bytes size1_gib = 1024 * 1024 * 1024

pub record Page : Type 0 where
  pub start_addr : ℕ
  pub size : PageSize

pub record PageRange : Type 0 where
  pub start : Page
  pub num_pages : ℕ

unfoldable pub from_num_bytes : Page → ℕ → PageRange
from_num_bytes start num_bytes = record {
  start = start;
  num_pages = div_ceil num_bytes (size_bytes start.size);
}

unfoldable pub num_bytes : PageRange → Exec ℕ
num_bytes r =
    let bytes = r.num_pages * size_bytes r.start.size in
    if ltb bytes (2 ^ 64) then ret bytes else panic

-- `PageRangeIter::next` at `current_page`: the item, and the next position.
unfoldable pub next_page : PageRange → ℕ → Exec (Option Page × ℕ)
next_page r current_page = do
  let offset = current_page * size_bytes r.start.size
  let inside = do
    assert (ltb offset (2 ^ 64))
    start_addr ← add_usize r.start.start_addr offset
    ret (some (record { start_addr = start_addr; size = r.start.size }), current_page + 1)
  if leb r.num_pages current_page then ret (none, current_page) else inside

module _ (lib : AddressLibrary) where
  unfoldable pub to_phys_addr : ℕ → Exec ℕ
  to_phys_addr addr = do
    assert (leb kernel_physical_mapping_start addr && leb addr kernel_physical_mapping_end)
    lib.phys_addr (addr - kernel_physical_mapping_start)

  unfoldable pub from_start_addr : ℕ → PageSize → Exec Page
  from_start_addr start_addr size = do
    assert (lib.align_down start_addr (size_bytes size) == start_addr)
    ret (record { start_addr = start_addr; size = size })

  unfoldable pub containing_address : ℕ → PageSize → Page
  containing_address addr size = record {
    start_addr = lib.align_down addr (size_bytes size);
    size = size;
  }

  -- `allocate_pages` after the bitmap allocator has answered; `none` is `AllocError`.
  unfoldable pub page_range_at :
      BitmapAllocator → ℕ → Option ℕ → Exec (Option PageRange × BitmapAllocator)
  page_range_at a num_pages none = ret (none, a)
  page_range_at a num_pages (some page) = do
    assert (ltb 0 page)
    assert (ltb (page * page_size) (2 ^ 64))
    phys ← lib.phys_addr (page * page_size)
    start_addr ← from_phys_addr phys
    start_page ← from_start_addr start_addr size4_kib
    ret (some (record { start = start_page; num_pages = num_pages }), a)

  unfoldable pub allocate_pages : BitmapAllocator → ℕ → Exec (Option PageRange × BitmapAllocator)
  allocate_pages a num_pages = do
    (page, b) ← allocate_contiguous a num_pages
    page_range_at b num_pages page

  unfoldable pub free_pages : BitmapAllocator → PageRange → Exec BitmapAllocator
  free_pages a pages = do
    start_addr ← to_phys_addr pages.start.start_addr
    free_contiguous a (start_addr / size_bytes pages.start.size) pages.num_pages

  unfoldable pub free_page : BitmapAllocator → Page → Exec BitmapAllocator
  free_page a page = free_pages a (record { start = page; num_pages = 1 })

  -- `PhysicalBuffer::allocate_zeroed`, without the zeroing of the memory.
  unfoldable pub allocate_zeroed : BitmapAllocator → ℕ → Exec (Option PageRange × BitmapAllocator)
  allocate_zeroed a min_bytes = allocate_pages a (div_ceil min_bytes page_size)

-- `allocate_page`, after `allocate_pages(1)`.
unfoldable pub only_page : BitmapAllocator → Option PageRange → Exec (Option Page × BitmapAllocator)
only_page a none = ret (none, a)
only_page a (some pages) = do
  (first, current_page) ← next_page pages 0
  p ← expect first
  (second, _) ← next_page pages current_page
  assert (elim second [ none ↦ true | some q ↦ false ])
  ret (some p, a)

unfoldable pub allocate_page :
    AddressLibrary → BitmapAllocator → Exec (Option Page × BitmapAllocator)
allocate_page lib a = do (pages, b) ← allocate_pages lib a 1; only_page b pages
