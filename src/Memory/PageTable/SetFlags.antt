-- ===== src/Memory/PageTable/SetFlags.antt =====
-- `set_flags`, against what `translate_address` finds.
use rust_os.Prelude.{
  ℕ, suc, ◌≡◌, refl, sym, ap, ap₂, ◌∙◌, ◌≢◌, inl, inr, true, false, ◌&&◌, Option, none, some, arith,
  ◌==◌, Bool-cases, Exec, ret, Exec-cases, Result, ok, err,
}
use rust_os.Memory.{
  AddressLibrary, Page, PageSize, size4_kib, size_bytes, size2_mib, size1_gib, from_start_addr,
}
use rust_os.Memory.PageTable.Entry.{
  PageTableLevel, level1, level2, level3, level4, PageTableTarget, unmapped, page, next_table,
  present, huge_page, contains, target_inner, flags, set_flags as set_entry_flags, is_present,
  huge_target, lower_target, page_target, address, next_lower_level,
}
use rust_os.Memory.PageTable.Targets.{IsFlags, raw_address-set_flags, flags-set_flags}
use rust_os.Memory.PageTable.Tables.{
  Tables, TranslateResult, not_mapped, mapped, translate_loop, translate_address, translate_step,
  write_entry,
}
use rust_os.Memory.PageTable.Changes.{SetFlagsError, set_flags_loop, set_flags, set_flags_step}
use rust_os.Memory.PageTable.Writes.{write_entry-same}
use rust_os.Memory.PageTable.Unmap.{Trail, ended, found, link, translate-Trail}
use rust_os.Memory.PageTable.Walk.{
  page_target_made, huge_target-page, index_of, address_target_lem, translate_loop_lem,
}

from_start_addr-size :
    (lib : AddressLibrary) (a : ℕ) (size : PageSize) (q : Page)
    → from_start_addr lib a size ≡ ret q
    → q.size ≡ size
unfolding from_start_addr
from_start_addr-size lib a size q h = elim (Bool-cases (lib.align_down a (size_bytes size) == a)) [
  | inl aligned ↦
      let e : record { start_addr = a; size = size } ≡ q = ground (arith, aligned, h) in
      sym (ap (λ (x : Page). x.size) e)
  | inr not_aligned ↦ absurd (ground (arith, not_aligned, h))
]

-- The answer of `set_flags` to what the translation finds.
abbrev pub Sets :
    ℕ
    → Tables
    → Exec (Result (Unit {0}) SetFlagsError × Tables)
    → (Tables → Exec TranslateResult)
    → TranslateResult
    → Type 0
Sets f tables run after not_mapped = run ≡ ret (err SetFlagsError.page_not_mapped, tables)
Sets f tables run after (mapped q g o) =
    (T : ℕ) × (I : ℕ) × (run ≡ ret (ok tt, write_entry tables T I (set_entry_flags (tables T I) f)))
    × (q.size ≡ size4_kib
        → after (write_entry tables T I (set_entry_flags (tables T I) f)) ≡ ret (mapped q f o))

module _ (lib : AddressLibrary) (f : ℕ) (fl : IsFlags f) (is : contains f present ≡ true)
    (one : contains f huge_page ≡ false) where
  address_kept : (e : ℕ) → address lib (set_entry_flags e f) ≡ address lib e
  unfolding address
  address_kept e = rw (raw_address-set_flags e f fl) refl

  page_target_kept :
      (e : ℕ) (size : PageSize) (q : Page) (g : ℕ)
      → page_target lib e size ≡ ret (page q g)
      → page_target lib (set_entry_flags e f) size ≡ ret (page q f)
  unfolding page_target
  page_target_kept e size q g h =
      let (a, q', at, made, same) = page_target_made lib e size (page q g) h in
      let e' : q ≡ q' = cc in rw (address_kept e, at, made, flags-set_flags e f fl, e')

  -- No huge page has 4 KiB.
  not_huge :
      (e : ℕ) (level : PageTableLevel) (q : Page) (g : ℕ)
      → q.size ≡ size4_kib
      → huge_target lib e level ≢ ret (page q g)
  unfolding huge_target
  not_huge e level1 q g small h = cc
  not_huge e level2 q g small h =
      let (a, q', at, made, same) = page_target_made lib e size2_mib (page q g) h in
      let e' : q ≡ q' = cc in
      absurd
        (cc (small, ap (λ (x : Page). x.size) e', from_start_addr-size lib a size2_mib q' made))
  not_huge e level3 q g small h =
      let (a, q', at, made, same) = page_target_made lib e size1_gib (page q g) h in
      let e' : q ≡ q' = cc in
      absurd
        (cc (small, ap (λ (x : Page). x.size) e', from_start_addr-size lib a size1_gib q' made))
  not_huge e level4 q g small h = cc

  -- With the flags replaced, the entry for a page of 4 KiB and a link mean the same.
  target_after :
      (e : ℕ) (level : PageTableLevel)
      → target_inner lib (set_entry_flags e f) level
        ≡ lower_target lib (set_entry_flags e f) (next_lower_level level)
  unfolding target_inner is_present
  target_after e level = rw (flags-set_flags e f fl, is, one) refl

  target_before :
      (e : ℕ) (level : PageTableLevel) (t : PageTableTarget)
      → t ≢ unmapped
      → huge_target lib e level ≢ ret t
      → target_inner lib e level ≡ ret t
      → lower_target lib e (next_lower_level level) ≡ ret t
  unfolding target_inner
  target_before e level t there small h = elim (Bool-cases (is_present e)) [
    | inr isnt ↦ absurd (ground (arith, isnt, h, there))
    | inl is ↦ elim (Bool-cases (contains (flags e) huge_page)) [
      | inl huge ↦ absurd (small (ground (arith, is, huge, h)))
      | inr plain ↦ ground (arith, is, plain, h)
    ]
  ]

  lower_page :
      (e : ℕ) (next : Option PageTableLevel) (q : Page) (g : ℕ)
      → lower_target lib e next ≡ ret (page q g)
      → lower_target lib (set_entry_flags e f) next ≡ ret (page q f)
  unfolding lower_target
  lower_page e none q g h = page_target_kept e size4_kib q g h
  lower_page e (some l) q g h = elim (Exec-cases (address lib e)) [
    | inl no_address ↦ absurd (ground (arith, no_address, h))
    | inr (a, at) ↦ absurd (ground (arith, at, h))
  ]

  lower_link :
      (e : ℕ) (next : Option PageTableLevel) (lower : PageTableLevel) (child : ℕ)
      → lower_target lib e next ≡ ret (next_table lower child)
      → lower_target lib (set_entry_flags e f) next ≡ ret (next_table lower child)
  unfolding lower_target
  lower_link e none lower child h =
      let (a, q, at, made, same) = page_target_made lib e size4_kib (next_table lower child) h in
      absurd (cc)
  lower_link e (some l) lower child h = rw (address_kept e) h

  page_kept :
      (e : ℕ) (level : PageTableLevel) (q : Page) (g : ℕ)
      → q.size ≡ size4_kib
      → target_inner lib e level ≡ ret (page q g)
      → target_inner lib (set_entry_flags e f) level ≡ ret (page q f)
  page_kept e level q g small h =
      target_after e level
      ∙ lower_page e (next_lower_level level) q g
          (target_before e level (page q g) (λ x. cc) (not_huge e level q g small) h)

  link_kept :
      (e : ℕ) (level lower : PageTableLevel) (child : ℕ)
      → target_inner lib e level ≡ ret (next_table lower child)
      → target_inner lib (set_entry_flags e f) level ≡ ret (next_table lower child)
  link_kept e level lower child h =
      target_after e level
      ∙ lower_link e (next_lower_level level) lower child (
          target_before e level (next_table lower child) (λ x. cc)
            (λ huge.
              let (q, g, same) = huge_target-page lib e level (next_table lower child) huge in
              absurd (cc))
            h)

  module _ (tables : Tables) (start : ℕ) where
    set_flags_round :
        (level : PageTableLevel) (table fuel : ℕ) (t : PageTableTarget)
        → target_inner lib (tables table (index_of level start)) level ≡ ret t
        → set_flags_loop lib f (suc fuel) tables start level table
          ≡ set_flags_step lib f
              (set_flags_loop lib f fuel tables start)
              tables
              table
              (index_of level start, t)
    unfolding set_flags_loop
    set_flags_round level table fuel t at =
        rw (address_target_lem lib tables start level table t at)

    -- A link on the walk, after the flags at `I` of `T` are replaced.
    set_above :
        (T I : ℕ) (level lower : PageTableLevel) (table child fuel : ℕ) (r : TranslateResult)
        → target_inner lib (tables table (index_of level start)) level
          ≡ ret (next_table lower child)
        → translate_loop lib fuel
            (write_entry tables T I (set_entry_flags (tables T I) f))
            start
            lower
            child
          ≡ ret r
        → translate_loop lib
            (suc fuel)
            (write_entry tables T I (set_entry_flags (tables T I) f))
            start
            level
            table
          ≡ ret r
    unfolding write_entry translate_step
    set_above T I level lower table child fuel r at below =
        let tables' = write_entry tables T I (set_entry_flags (tables T I) f) in
        elim (Bool-cases (table == T && index_of level start == I)) [
          | inl here ↦
              let st : table ≡ T = ground (arith, here) in
              let si : index_of level start ≡ I = ground (arith, here) in
              let kept =
                link_kept (tables T I) level lower child
                  (ap (λ (e : ℕ). target_inner lib e level) (sym (ap₂ tables st si)) ∙ at) in
              translate_loop_lem lib tables' start level table (next_table lower child)
                (rw here kept) fuel
              ∙ below
          | inr other ↦
              translate_loop_lem lib tables' start level table (next_table lower child)
                (rw other at) fuel
              ∙ below
        ]

    Sets-above :
        (r : TranslateResult) (level lower : PageTableLevel) (table child fuel : ℕ)
        → target_inner lib (tables table (index_of level start)) level
          ≡ ret (next_table lower child)
        → Sets f tables
            (set_flags_loop lib f fuel tables start lower child)
            (λ T. translate_loop lib fuel T start lower child)
            r
        → Sets f tables
            (set_flags_loop lib f (suc fuel) tables start level table)
            (λ T. translate_loop lib (suc fuel) T start level table)
            r
    unfolding set_flags_step
    Sets-above not_mapped level lower table child fuel at ih =
        set_flags_round level table fuel (next_table lower child) at ∙ ih
    Sets-above (mapped q g o) level lower table child fuel at (T, I, run, now) = (
      T,
      I,
      set_flags_round level table fuel (next_table lower child) at ∙ run,
      λ small. set_above T I level lower table child fuel (mapped q f o) at (now small),
    )

    set_flags_loop_lem :
        (r : TranslateResult) {fuel : ℕ} {level : PageTableLevel} {table : ℕ}
        → Trail lib tables start fuel level table r
        → Sets f tables
            (set_flags_loop lib f fuel tables start level table)
            (λ T. translate_loop lib fuel T start level table)
            r
    unfolding set_flags_step translate_step
    set_flags_loop_lem r {level = level} {table = table} (ended {fuel} at) =
        set_flags_round level table fuel unmapped at
    set_flags_loop_lem r {level = level} {table = table} (found {fuel} q g off at) =
        let I = index_of level start in
        let e = set_entry_flags (tables table I) f in
        (
          table,
          I,
          set_flags_round level table fuel (page q g) at,
          λ small.
              translate_loop_lem lib (write_entry tables table I e) start level table (page q f)
                (rw (write_entry-same tables table I e)
                  (page_kept (tables table I) level q g small at))
                fuel
              ∙ rw off,
        )
    set_flags_loop_lem r {level = level} {table = table} (link {fuel} lower child at trail) =
        Sets-above r level lower table child fuel at (set_flags_loop_lem r trail)

  -- For flags with `PRESENT`, without `HUGE_PAGE` and without a bit of an address: where the translation
  -- of a page's start ends without a panic, `set_flags` reports a page that is not mapped and changes
  -- nothing, or it replaces the flags of exactly one entry; if the page that was mapped has 4 KiB, the
  -- page afterwards translates to the same physical page at the same offset, with the new flags.
  pub set_flags_lem :
      (tables : Tables) (root : ℕ) (p : Page) (r : TranslateResult)
      → translate_address lib tables root p.start_addr ≡ ret r
      → Sets f tables
          (set_flags lib f tables root p)
          (λ T. translate_address lib T root p.start_addr)
          r
  unfolding translate_address set_flags
  set_flags_lem tables root p r h =
      set_flags_loop_lem tables p.start_addr r
        (translate-Trail lib tables p.start_addr 4 level4 root r h)
