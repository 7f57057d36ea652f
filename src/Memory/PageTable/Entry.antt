-- ===== src/Memory/PageTable/Entry.antt =====
-- kernel/src/memory/page_table.rs: `PageTableEntry`, its flags and its target. An entry is the
-- `u64` inside.
use rust_os.Prelude.{
  ℕ, ◌-◌, ◌^◌, bit_and, bit_or, Bool, Option, none, some, ◌==◌, if◌then◌else◌, Exec, ret, panic,
  assert, ◌>>=◌, ◌>>◌,
}
use rust_os.Memory.{
  AddressLibrary, Page, PageSize, size4_kib, size2_mib, size1_gib, from_phys_addr, to_phys_addr,
  from_start_addr,
}

-- The bits of `PageTableEntryFlags` that the code names.
abbrev pub present : ℕ
present = 1

abbrev pub writable : ℕ
writable = 2

abbrev pub user_accessible : ℕ
user_accessible = 4

abbrev pub huge_page : ℕ
huge_page = 128

-- All the flags: the bits 0 to 11 and 52 to 63.
abbrev pub all_flags : ℕ
all_flags = 0xfff0000000000fff

abbrev pub address_mask : ℕ
address_mask = 0x000ffffffffff000

pub data PageTableLevel : Type 0 where
  level1 : PageTableLevel
  level2 : PageTableLevel
  level3 : PageTableLevel
  level4 : PageTableLevel

unfoldable pub next_lower_level : PageTableLevel → Option PageTableLevel
next_lower_level level4 = some level3
next_lower_level level3 = some level2
next_lower_level level2 = some level1
next_lower_level level1 = none

-- `PageTableTarget`, with the address of the table for the reference to it.
pub data PageTableTarget : Type 0 where
  unmapped : PageTableTarget
  page : Page → ℕ → PageTableTarget
  next_table : PageTableLevel → ℕ → PageTableTarget

unfoldable pub flags : ℕ → ℕ
flags entry = bit_and entry all_flags

unfoldable pub raw_address : ℕ → ℕ
raw_address entry = bit_and entry address_mask

unfoldable pub set_flags : ℕ → ℕ → ℕ
set_flags entry f = bit_or (raw_address entry) f

-- `flags.contains(other)`.
unfoldable pub contains : ℕ → ℕ → Bool
contains f other = bit_and f other == other

unfoldable pub is_present : ℕ → Bool
is_present entry = contains (flags entry) present

unfoldable pub set_address : ℕ → ℕ → Exec ℕ
set_address entry addr = do
  assert (bit_and addr (2 ^ 64 - 1 - address_mask) == 0)
  ret (bit_or entry addr)

unfoldable pub clear : ℕ → ℕ
clear entry = 0

module _ (lib : AddressLibrary) where
  unfoldable pub address : ℕ → Exec ℕ
  address entry = do phys ← lib.phys_addr (raw_address entry); from_phys_addr phys

  unfoldable pub page_target : ℕ → PageSize → Exec PageTableTarget
  page_target entry size = do
    start_addr ← address entry
    p ← from_start_addr lib start_addr size
    ret (page p (flags entry))

  unfoldable pub huge_target : ℕ → PageTableLevel → Exec PageTableTarget
  huge_target entry level4 = panic
  huge_target entry level3 = page_target entry size1_gib
  huge_target entry level2 = page_target entry size2_mib
  huge_target entry level1 = panic

  unfoldable pub lower_target : ℕ → Option PageTableLevel → Exec PageTableTarget
  lower_target entry none = page_target entry size4_kib
  lower_target entry (some level) = do table ← address entry; ret (next_table level table)

  unfoldable pub target_inner : ℕ → PageTableLevel → Exec PageTableTarget
  target_inner entry level =
      if is_present entry
      then (if contains (flags entry) huge_page
          then huge_target entry level
          else lower_target entry (next_lower_level level))
      else ret unmapped

  unfoldable pub set_target_page : ℕ → Page → ℕ → Exec ℕ
  set_target_page entry p f = do
    phys ← to_phys_addr lib p.start_addr
    e ← set_address entry phys
    ret (set_flags e (bit_or f present))
