-- ===== src/Memory/PageTable/Unmap.antt =====
-- `unmap` and `set_flags`, against what `translate_address` finds.
use rust_os.Prelude.{
  ℕ, zero, suc, ◌%◌, ◌≡◌, refl, sym, subst, ◌∙◌, ◌≢◌, inl, inr, Bool, true, false, ◌&&◌, arith,
  ◌==◌, Bool-cases, Exec, ret, panic, Exec-cases, Result, ok, err,
}
use rust_os.BitmapAlloc.{BitmapAllocator}
use rust_os.Memory.{AddressLibrary, Page, size_bytes}
use rust_os.Memory.PageTable.Entry.{
  PageTableLevel, level4, PageTableTarget, unmapped, page, next_table, contains, target_inner,
  clear, flags, is_present,
}
use rust_os.Memory.PageTable.Tables.{
  Tables, Memory, TranslateResult, not_mapped, mapped, translate_loop, translate_address,
  translate_step, write_entry, address_target,
}
use rust_os.Memory.PageTable.Changes.{
  UnmapError, page_wrong_size, unmap_loop, unmap, unmap_step, unmap_page_at, freed,
}
use rust_os.Memory.PageTable.Writes.{write_entry-same}
use rust_os.Memory.PageTable.Walk.{
  index_of, address_target_lem, translate_loop_lem, from_address_lem,
}

-- Cleared entries are not present.
pub cleared :
    (lib : AddressLibrary) (level : PageTableLevel) → target_inner lib 0 level ≡ ret unmapped
unfolding target_inner is_present contains flags
cleared lib level = refl

-- The rounds of a walk that ends without a panic.
pub data Trail (lib : AddressLibrary) (tables : Tables) (addr : ℕ)
    : ℕ → PageTableLevel → ℕ → TranslateResult → Type 0 where
  ended :
      {fuel : ℕ} {level : PageTableLevel} {table : ℕ}
      → target_inner lib (tables table (index_of level addr)) level ≡ ret unmapped
      → Trail lib tables addr (suc fuel) level table not_mapped
  found :
      {fuel : ℕ} {level : PageTableLevel} {table o : ℕ} (q : Page) (g : ℕ)
      → o ≡ addr % size_bytes q.size
      → target_inner lib (tables table (index_of level addr)) level ≡ ret (page q g)
      → Trail lib tables addr (suc fuel) level table (mapped q g o)
  link :
      {fuel : ℕ} {level : PageTableLevel} {table : ℕ} {r : TranslateResult} (lower : PageTableLevel)
      (child : ℕ)
      → target_inner lib (tables table (index_of level addr)) level ≡ ret (next_table lower child)
      → Trail lib tables addr fuel lower child r
      → Trail lib tables addr (suc fuel) level table r

module _ (lib : AddressLibrary) (tables : Tables) (addr : ℕ) where
  pub translate-Trail :
      (fuel : ℕ) (level : PageTableLevel) (table : ℕ) (r : TranslateResult)
      → translate_loop lib fuel tables addr level table ≡ ret r
      → Trail lib tables addr fuel level table r
  unfolding translate_loop translate_step address_target
  translate-Trail zero level table r h = absurd (cc)
  translate-Trail (suc fuel) level table r h =
      elim (Exec-cases (target_inner lib (tables table (index_of level addr)) level)) [
        | inl none_there ↦
            let stuck : translate_loop lib (suc fuel) tables addr level table ≡ panic =
              rw (from_address_lem level addr, none_there) refl in
            absurd (cc (stuck, h))
        | inr (t, at) ↦
            go t at (translate-Trail fuel)
              (sym (translate_loop_lem lib tables addr level table t at fuel) ∙ h)
      ]
    where
      go :
          (t : PageTableTarget)
          → target_inner lib (tables table (index_of level addr)) level ≡ ret t
          → ((lower : PageTableLevel) (child : ℕ) (r : TranslateResult)
              → translate_loop lib fuel tables addr lower child ≡ ret r
              → Trail lib tables addr fuel lower child r)
          → translate_step lib (translate_loop lib fuel tables addr) addr t ≡ ret r
          → Trail lib tables addr (suc fuel) level table r
      go unmapped at again run =
          let e : not_mapped ≡ r = cc in
          subst (Trail lib tables addr (suc fuel) level table) e (ended at)
      go (page q g) at again run =
          let e : mapped q g (addr % size_bytes q.size) ≡ r = cc in
          subst (Trail lib tables addr (suc fuel) level table) e (found q g refl at)
      go (next_table lower child) at again run = link lower child at (again lower child r run)

-- A link on the walk, after the entry at `I` of `T` is cleared.
clear_above :
    (lib : AddressLibrary) (tables : Tables) (addr T I : ℕ) (level lower : PageTableLevel)
    (table child fuel : ℕ)
    → target_inner lib (tables table (index_of level addr)) level ≡ ret (next_table lower child)
    → translate_loop lib fuel (write_entry tables T I 0) addr lower child ≡ ret not_mapped
    → translate_loop lib (suc fuel) (write_entry tables T I 0) addr level table ≡ ret not_mapped
unfolding write_entry translate_step
clear_above lib tables addr T I level lower table child fuel at below =
    let tables' = write_entry tables T I 0 in
    elim (Bool-cases (table == T && index_of level addr == I)) [
      | inl here ↦
          translate_loop_lem lib tables' addr level table unmapped (rw here (cleared lib level))
            fuel
      | inr other ↦
          translate_loop_lem lib tables' addr level table (next_table lower child) (rw other at)
            fuel
          ∙ below
    ]

module _ (lib : AddressLibrary) (p : Page) (m : Memory) where
  unmap_loop_round :
      (free : Bool) (level : PageTableLevel) (table fuel : ℕ) (t : PageTableTarget)
      → target_inner lib (m.tables table (index_of level p.start_addr)) level ≡ ret t
      → unmap_loop lib p free (suc fuel) m level table
        ≡ unmap_step lib p free
            (unmap_loop lib p free fuel m)
            m
            table
            (index_of level p.start_addr, t)
  unfolding unmap_loop
  unmap_loop_round free level table fuel t at =
      rw (address_target_lem lib m.tables p.start_addr level table t at)

  -- The answer of `unmap` to what the translation finds; `a` is the allocator once the page is
  -- freed.
  abbrev pub Unmaps :
      (run : Exec (Result Page UnmapError × Memory)) (after : Tables → Exec TranslateResult)
      → BitmapAllocator
      → TranslateResult
      → Type 0
  Unmaps run after a not_mapped = run ≡ ret (err UnmapError.page_not_mapped, m)
  Unmaps run after a (mapped q g o) =
      (size_bytes q.size ≢ size_bytes p.size → run ≡ ret (err (page_wrong_size p.size q.size), m))
      × (size_bytes q.size ≡ size_bytes p.size
          → (T : ℕ) × (I : ℕ) × (run
              ≡ ret (ok q, record { tables = write_entry m.tables T I 0; allocator = a }))
            × (after (write_entry m.tables T I 0) ≡ ret not_mapped))

  -- The allocator after the unmapping.
  abbrev pub Frees : Bool → BitmapAllocator → TranslateResult → Type 0
  Frees free a not_mapped = Unit
  Frees free a (mapped q g o) = freed lib p free q m.allocator ≡ ret a

  unmap_above :
      (free : Bool) (a : BitmapAllocator) (r : TranslateResult) (level lower : PageTableLevel)
      (table child fuel : ℕ)
      → target_inner lib (m.tables table (index_of level p.start_addr)) level
        ≡ ret (next_table lower child)
      → Unmaps
          (unmap_loop lib p free fuel m lower child)
          (λ T. translate_loop lib fuel T p.start_addr lower child)
          a
          r
      → Unmaps
          (unmap_loop lib p free (suc fuel) m level table)
          (λ T. translate_loop lib (suc fuel) T p.start_addr level table)
          a
          r
  unfolding unmap_step
  unmap_above free a not_mapped level lower table child fuel at ih =
      unmap_loop_round free level table fuel (next_table lower child) at ∙ ih
  unmap_above free a (mapped q g o) level lower table child fuel at ih =
      let round = unmap_loop_round free level table fuel (next_table lower child) at in
      (
        λ differ. round ∙ ih.0 differ,
        λ same.
            let (T, I, run, now) = ih.1 same in
            (
              T,
              I,
              round ∙ run,
              clear_above lib m.tables p.start_addr T I level lower table child fuel at now,
            ),
      )

  unmap_loop_lem :
      (free : Bool) (a : BitmapAllocator) (r : TranslateResult) {fuel : ℕ} {level : PageTableLevel}
      {table : ℕ}
      → Trail lib m.tables p.start_addr fuel level table r
      → Frees free a r
      → Unmaps
          (unmap_loop lib p free fuel m level table)
          (λ T. translate_loop lib fuel T p.start_addr level table)
          a
          r
  unfolding unmap_step unmap_page_at clear translate_step
  unmap_loop_lem free a r {level = level} {table = table} (ended {fuel} at) frees =
      unmap_loop_round free level table fuel unmapped at
  unmap_loop_lem free a r {level = level} {table = table} (found {fuel} q g off at) frees =
      let round = unmap_loop_round free level table fuel (page q g) at in
      (
        λ differ.
            let t : (size_bytes q.size == size_bytes p.size) ≡ false = ground (arith, differ) in
            round ∙ rw t,
        λ same.
            let t : (size_bytes q.size == size_bytes p.size) ≡ true = ground (arith, same) in
            (
              table,
              index_of level p.start_addr,
              round ∙ rw (t, frees),
              translate_loop_lem lib (write_entry m.tables table (index_of level p.start_addr) 0)
                  p.start_addr level table unmapped
                  (rw (write_entry-same m.tables table (index_of level p.start_addr) 0)
                    (cleared lib level))
                  fuel,
            ),
      )
  unmap_loop_lem free a r {level = level} {table = table} (link {fuel} lower child at trail) frees =
      unmap_above free a r level lower table child fuel at (unmap_loop_lem free a r trail frees)

  -- Where the translation of a page's start ends without a panic, `unmap` answers by what it finds.
  -- It reports a page that is not mapped, and one that is mapped to a page of another size, and changes
  -- nothing. Otherwise it returns the page that was mapped, clears exactly one entry, after which the
  -- page is not mapped, and leaves the allocator that the freeing, if it is asked for, leaves.
  pub unmap_lem :
      (root : ℕ) (free : Bool) (a : BitmapAllocator) (r : TranslateResult)
      → translate_address lib m.tables root p.start_addr ≡ ret r
      → Frees free a r
      → Unmaps (unmap lib p free m root) (λ T. translate_address lib T root p.start_addr) a r
  unfolding translate_address unmap
  unmap_lem root free a r h frees =
      unmap_loop_lem free a r (translate-Trail lib m.tables p.start_addr 4 level4 root r h) frees
