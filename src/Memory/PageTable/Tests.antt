-- ===== src/Memory/PageTable/Tests.antt =====
-- Four tables with one page of 4 KiB mapped at address 0.
use rust_os.Prelude.{
  ℕ, ◌+◌, ◌*◌, ◌^◌, ◌≤◌, ◌<◌, ◌≡◌, refl, ◌≢◌, false, none, [], ◌∷◌, arith, ◌==◌, if◌then◌else◌, ret,
  test_bit, Result,
}
use rust_os.Memory.{
  Page, size4_kib, page_size, kernel_physical_mapping_start, from_phys_addr, kern_phys_addr,
  from_start_addr,
}
use rust_os.Memory.Tests.{addresses}
use rust_os.Memory.PageTable.Entry.{
  level1, level2, level3, level4, next_lower_level, target_inner, is_present, contains, flags,
  raw_address, address, page_target, lower_target,
}
use rust_os.Memory.PageTable.Frames.{IsReady, page_of}
use rust_os.Memory.PageTable.Tables.{
  Tables, Memory, new_phys_page, MapError, not_mapped, mapped, translate_loop, translate_address,
  translate_step, address_target, from_address, new_index, map_to,
}
use rust_os.Memory.PageTable.Changes.{unmap, set_flags, freed, unmap_lower_half}
use rust_os.Memory.PageTable.Walk.{Walk, stops, leaf, down}
use rust_os.Memory.PageTable.MapTo.{MapOutcome}
use rust_os.Memory.PageTable.Mappings.{map_to_lem, map_to-translate_address}
use rust_os.Memory.PageTable.Unmap.{Unmaps, unmap_lem, cleared}
use rust_os.Memory.PageTable.SetFlags.{Sets, set_flags_lem}
use rust_os.Memory.PageTable.Rounds.{translate_address-rounds, unmap_lower_half_lem}

abbrev table_at : ℕ → ℕ
table_at s = s * page_size + kernel_physical_mapping_start

-- The tables stand in the pages 1 to 4; page 5 is mapped.
abbrev entries : Tables
entries = λ t i.
    if i == 0
    then (if t == table_at 1
        then 2 * 4096 + 3
        else if t == table_at 2
        then 3 * 4096 + 3
        else if t == table_at 3
        then 4 * 4096 + 3
        else if t == table_at 4
        then 5 * 4096 + 3
        else 0)
    else 0

abbrev memory : Memory
memory = record {
  tables = entries;
  allocator = record { bitmap = 0b111111 ∷ 0 ∷ []; last_single_page_allocation = none };
}

memory-IsReady : IsReady memory.allocator
unfolding test_bit
memory-IsReady = record {
  valid = record { words = omega arith; hint = λ p lt. absurd (omega arith) };
  zero_page = refl;
  window = omega arith;
}

Walk-to_zero : Walk addresses memory 0 level4 (table_at 1)
unfolding test_bit target_inner is_present contains flags address raw_address from_phys_addr
    kern_phys_addr lower_target page_target from_start_addr next_lower_level
Walk-to_zero = down level3 (table_at 2) refl refl (
    down level2 (table_at 3) refl refl
      (down level1 (table_at 4) refl refl (leaf (page_of 5) 3 refl refl)))

translate_zero : translate_address addresses entries (table_at 1) 0 ≡ ret (mapped (page_of 5) 3 0)
unfolding test_bit target_inner is_present contains flags address raw_address from_phys_addr
    kern_phys_addr lower_target page_target from_start_addr next_lower_level translate_address
    translate_loop translate_step address_target from_address new_index
translate_zero = refl

-- A page at 512 GiB.
abbrev far : Page
far = record { start_addr = 2 ^ 39; size = size4_kib }

Walk-far : Walk addresses memory (2 ^ 39) level4 (table_at 1)
unfolding test_bit raw_address
Walk-far = stops refl (cleared addresses level4) refl

map_to_lem_example :
    (r : Result Page MapError) × (m' : Memory) × (map_to addresses far new_phys_page 3
        (table_at 1)
        memory
      ≡ ret (r, m'))
    × MapOutcome addresses far (2 ^ 39 + 5) new_phys_page 3 memory 4 level4 (table_at 1) r m'
unfolding contains
map_to_lem_example =
    map_to_lem addresses far new_phys_page 3 (table_at 1) memory refl refl refl refl tt
      memory-IsReady Walk-far (2 ^ 39 + 5) (omega arith) (omega arith)

map_to-translate_address_example :
    (r : Result Page MapError) × (m' : Memory) × (map_to addresses far new_phys_page 3
        (table_at 1)
        memory
      ≡ ret (r, m'))
    × (translate_address addresses m'.tables (table_at 1) 0 ≡ ret (mapped (page_of 5) 3 0))
unfolding contains
map_to-translate_address_example =
    map_to-translate_address addresses far new_phys_page 3 (table_at 1) memory refl refl refl refl
      tt memory-IsReady Walk-far 0 (page_of 5) 3 0 Walk-to_zero translate_zero

abbrev first_page : Page
first_page = record { start_addr = 0; size = size4_kib }

unmap_lem_example :
    Unmaps addresses first_page memory
      (unmap addresses first_page false memory (table_at 1))
      (λ T. translate_address addresses T (table_at 1) 0)
      memory.allocator
      (mapped (page_of 5) 3 0)
unfolding freed
unmap_lem_example =
    unmap_lem addresses first_page memory (table_at 1) false memory.allocator
      (mapped (page_of 5) 3 0) translate_zero refl

set_flags_lem_example :
    Sets 1 entries
      (set_flags addresses 1 entries (table_at 1) first_page)
      (λ T. translate_address addresses T (table_at 1) 0)
      (mapped (page_of 5) 3 0)
unfolding contains
set_flags_lem_example =
    set_flags_lem addresses 1 refl refl refl entries (table_at 1) first_page
      (mapped (page_of 5) 3 0) translate_zero

translate_address-rounds_example :
    translate_loop addresses (7 + 4) entries 0 level4 (table_at 1)
    ≡ translate_address addresses entries (table_at 1) 0
translate_address-rounds_example = translate_address-rounds addresses entries 0 (table_at 1) 7

unmap_lower_half_lem_example :
    ((addr : ℕ)
      → addr < 2 ^ 47
      → translate_address addresses (unmap_lower_half (table_at 1) entries) (table_at 1) addr
        ≡ ret not_mapped)
    × ((i : ℕ)
        → 256 ≤ i
        → unmap_lower_half (table_at 1) entries (table_at 1) i ≡ entries (table_at 1) i)
    × ((t i : ℕ) → t ≢ table_at 1 → unmap_lower_half (table_at 1) entries t i ≡ entries t i)
unmap_lower_half_lem_example = unmap_lower_half_lem addresses (table_at 1) entries
