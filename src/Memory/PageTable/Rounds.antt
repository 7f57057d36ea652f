-- ===== src/Memory/PageTable/Rounds.antt =====
-- The number of rounds of a walk, and the walk in the kernel's cleaned table.
use rust_os.Prelude.{
  ℕ, zero, suc, ◌+◌, ◌/◌, ◌^◌, ◌≤◌, ◌<◌, ◌≡◌, refl, sym, ◌∙◌, ◌≢◌, inl, inr, true, ◌&&◌, arith, ltb,
  ◌==◌, if◌then◌else◌, Bool-cases, ret, panic, Exec-cases, and_ones,
}
use rust_os.Memory.{AddressLibrary}
use rust_os.Memory.PageTable.Entry.{
  PageTableLevel, level4, PageTableTarget, unmapped, page, next_table, target_inner, clear,
}
use rust_os.Memory.PageTable.Tables.{
  Tables, not_mapped, translate_loop, translate_address, translate_step, write_entry,
  address_target,
}
use rust_os.Memory.PageTable.Changes.{clear_entries, unmap_lower_half}
use rust_os.Memory.PageTable.Walk.{index_of, translate_loop_lem, lower_of_target, from_address_lem}
use rust_os.Memory.PageTable.MapTo.{number_positive, number_lower}
use rust_os.Memory.PageTable.Unmap.{cleared}
use rust_os.Memory.PageTable.Tables.{number}

module _ (lib : AddressLibrary) (tables : Tables) (addr : ℕ) where
  stuck_round :
      (fuel : ℕ) (level : PageTableLevel) (table : ℕ)
      → target_inner lib (tables table (index_of level addr)) level ≡ panic
      → translate_loop lib (suc fuel) tables addr level table ≡ panic
  unfolding translate_loop address_target
  stuck_round fuel level table none_there = rw (from_address_lem level addr, none_there)

  enough_rounds :
      (fuel more : ℕ) (level : PageTableLevel) (table : ℕ)
      → number level ≤ fuel
      → translate_loop lib (more + fuel) tables addr level table
        ≡ translate_loop lib fuel tables addr level table
  unfolding translate_step
  enough_rounds zero more level table enough = absurd (omega (arith, number_positive level))
  enough_rounds (suc fuel) more level table enough =
      let step : more + suc fuel ≡ suc (more + fuel) = omega arith in
      rw step (elim (Exec-cases (target_inner lib (tables table (index_of level addr)) level)) [
        | inl none_there ↦
            stuck_round (more + fuel) level table none_there
            ∙ sym (stuck_round fuel level table none_there)
        | inr (t, at) ↦
            translate_loop_lem lib tables addr level table t at (more + fuel)
            ∙ same t at (enough_rounds fuel more)
            ∙ sym (translate_loop_lem lib tables addr level table t at fuel)
      ])
    where
      same :
          (t : PageTableTarget)
          → target_inner lib (tables table (index_of level addr)) level ≡ ret t
          → ((lower : PageTableLevel) (child : ℕ)
              → number lower ≤ fuel
              → translate_loop lib (more + fuel) tables addr lower child
                ≡ translate_loop lib fuel tables addr lower child)
          → translate_step lib (translate_loop lib (more + fuel) tables addr) addr t
            ≡ translate_step lib (translate_loop lib fuel tables addr) addr t
      same unmapped at again = refl
      same (page q g) at again = refl
      same (next_table lower child) at again =
          again lower child
            (omega (arith, number_lower level lower (lower_of_target lib _ level lower child at)))

  -- Four rounds are enough for every table, also for one whose entries form a cycle: with more
  -- rounds allowed the translation of an address is the same.
  pub translate_address-rounds :
      (root more : ℕ)
      → translate_loop lib (more + 4) tables addr level4 root
        ≡ translate_address lib tables root addr
  unfolding translate_address
  translate_address-rounds root more = enough_rounds 4 more level4 root (omega arith)

clear_entries_lem :
    (n root : ℕ) (tables : Tables) (t i : ℕ)
    → clear_entries n root tables t i ≡ (if t == root && ltb i n then 0 else tables t i)
unfolding clear_entries write_entry clear
clear_entries_lem zero root tables t i = ground arith
clear_entries_lem (suc n) root tables t i =
    let ih = clear_entries_lem n root tables t i in
    elim (Bool-cases (t == root && i == n)) [
      | inl here ↦
          let last : (t == root && ltb i (suc n)) ≡ true = ground (arith, here) in rw (here, last)
      | inr other ↦
          let same : (t == root && ltb i (suc n)) ≡ (t == root && ltb i n) =
            ground (arith, other) in
          rw (other, ih, same)
    ]

-- After `unmap_lower_half` no address below `2 ^ 47` is mapped. The entries of the upper half and all
-- other tables are as before.
pub unmap_lower_half_lem :
    (lib : AddressLibrary) (root : ℕ) (tables : Tables)
    → ((addr : ℕ)
        → addr < 2 ^ 47
        → translate_address lib (unmap_lower_half root tables) root addr ≡ ret not_mapped)
      × ((i : ℕ) → 256 ≤ i → unmap_lower_half root tables root i ≡ tables root i)
      × ((t i : ℕ) → t ≢ root → unmap_lower_half root tables t i ≡ tables t i)
unfolding unmap_lower_half translate_address translate_step
unmap_lower_half_lem lib root tables = (
  λ addr low.
      let x = addr / 2 ^ 39 in
      let i : index_of level4 addr ≡ x = omega (arith, and_ones 9 x (omega arith)) in
      let zeroed : clear_entries 256 root tables root (index_of level4 addr) ≡ 0 =
        clear_entries_lem 256 root tables root (index_of level4 addr) ∙ ground (arith, i) in
      translate_loop_lem lib (clear_entries 256 root tables) addr level4 root unmapped
        (rw zeroed (cleared lib level4)) 3,
  λ i high. clear_entries_lem 256 root tables root i ∙ ground (arith),
  λ t i other. clear_entries_lem 256 root tables t i ∙ ground (arith),
)
