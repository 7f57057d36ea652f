-- ===== src/Memory/PageTable/MapTo.antt =====
-- `map_to`: the new mapping, and the mappings that are kept.
use rust_os.Prelude.{
  ℕ, zero, suc, ◌+◌, ◌-◌, ◌*◌, ◌/◌, ◌%◌, ◌≤◌, ◌<◌, bit_or, ◌≡◌, refl, sym, ap, ◌∙◌, true, false,
  Option, none, some, List, arith, Exec, ret, ◌>>=◌, Result, ok, err,
}
use mathlib.Core.Option
use rust_os.BitmapAlloc.{BitmapAllocator}
use rust_os.BitmapAlloc.Pages.{is_used}
use rust_os.Memory.{
  AddressLibrary, Page, page_size, size_bytes, kernel_physical_mapping_start, size4_kib,
}
use rust_os.Memory.PageTable.Entry.{
  PageTableLevel, level1, level2, level3, level4, next_lower_level, PageTableTarget, unmapped, page,
  present, huge_page, next_table, raw_address, is_present, target_inner, flags, contains,
}
use rust_os.Memory.PageTable.Targets.{IsFlags}
use rust_os.Memory.PageTable.Frames.{IsReady, IsInside, page_of, Took, Answer, allocate_page_lem}
use rust_os.Memory.PageTable.Tables.{
  Memory, number, MapTarget, existing_phys_page, new_phys_page, MapError,
  physical_page_allocation_failed, page_already_mapped, mapped, map_step, map_loop, map_unmapped,
  map_below, map_page, map_child_table, get_target_page, allocate_and_map_child_table,
  translate_step, translate_loop, parent_flags,
}
use rust_os.Memory.PageTable.Writes.{parent_flags_lem, map_page-page_of, map_child_table-page_of}
use rust_os.Memory.PageTable.Walk.{
  not_mapped_at, IsTable, Walk, stops, leaf, down, Kept, Kept-refl, Kept-trans, index_of,
  address_target_lem, translate_loop_lem, present_of_target, lower_of_target,
}

-- The page that the entry shall point to: the given one, or one that was free and is used now.
abbrev pub IsTarget : MapTarget → BitmapAllocator → BitmapAllocator → Page → Type 0
IsTarget (existing_phys_page p) a b q = q ≡ p
IsTarget new_phys_page a b q =
    (s : ℕ) × (q ≡ page_of s) × (is_used a.bitmap s ≡ false) × (is_used b.bitmap s ≡ true)

IsTarget-earlier :
    (t : MapTarget) (a a1 b : BitmapAllocator) (q : Page)
    → ((s : ℕ) → is_used a.bitmap s ≡ true → is_used a1.bitmap s ≡ true)
    → IsTarget t a1 b q
    → IsTarget t a b q
IsTarget-earlier (existing_phys_page p) a a1 b q mono h = h
IsTarget-earlier new_phys_page a a1 b q mono (s, same, free, used) =
    (s, same, ground (arith, mono s, free), used)

-- A given page is a page of the kernel's window.
abbrev pub TargetInside : MapTarget → Type 0
TargetInside (existing_phys_page p) = (s : ℕ) × (p ≡ page_of s) × IsInside s
TargetInside new_phys_page = Unit

-- The target page.
abbrev TargetAnswer : MapTarget → BitmapAllocator → Option ℕ → BitmapAllocator → Type 0
TargetAnswer t a (some s) b =
    IsInside s
    × IsTarget t a b (page_of s)
    × IsReady b
    × ((q : ℕ) → is_used a.bitmap q ≡ true → is_used b.bitmap q ≡ true)
TargetAnswer t a none b =
    ((q : ℕ) → is_used b.bitmap q ≡ true)
    × IsReady b
    × ((q : ℕ) → is_used a.bitmap q ≡ true → is_used b.bitmap q ≡ true)

new_page-Answer :
    (a b : BitmapAllocator) (r : Option ℕ) → Answer a r b → TargetAnswer new_phys_page a r b
new_page-Answer a b none (full, same, ready) = (
  λ q. ap (λ (l : List ℕ). is_used l q) same ∙ full q,
  ready,
  λ q h. ap (λ (l : List ℕ). is_used l q) same ∙ h,
)
new_page-Answer a b (some s) took = (
  took.inside,
  (s, refl, took.was_free, ground (arith, took.used s)),
  took.ready,
  λ q h. ground (arith, took.used q),
)

get_target_page_lem :
    (lib : AddressLibrary) (t : MapTarget) (a : BitmapAllocator)
    → TargetInside t
    → IsReady a
    → (r : Option ℕ) × (b : BitmapAllocator) × (get_target_page lib t a size4_kib
        ≡ ret (Option.map page_of r, b))
      × TargetAnswer t a r b
unfolding get_target_page
get_target_page_lem lib (existing_phys_page p) a (s, same, inside) ready =
    (some s, a, rw same refl, (inside, sym same, ready, λ q h. h))
get_target_page_lem lib new_phys_page a inside ready =
    let (r, b, run, answer) = allocate_page_lem lib a ready in
    (r, b, run, new_page-Answer a b r answer)

used_later :
    {a b : BitmapAllocator} {s : ℕ}
    → Took a s b
    → (q : ℕ) → is_used a.bitmap q ≡ true
    → is_used b.bitmap q ≡ true
used_later took q h = ground (arith, took.used q)

child-IsTable :
    {a b c : BitmapAllocator} {s : ℕ}
    → Took a s b
    → c ≡ b
    → IsTable c (s * page_size + kernel_physical_mapping_start)
child-IsTable {a} {b} {c} {s} took same =
    let back : (s * page_size + kernel_physical_mapping_start - kernel_physical_mapping_start)
          / page_size
        ≡ s =
      omega arith in
    rw (same, back) (ground (arith, took.used s))

pub number_positive : (level : PageTableLevel) → 0 < number level
number_positive level1 = omega arith
number_positive level2 = omega arith
number_positive level3 = omega arith
number_positive level4 = omega arith

pub number_lower :
    (level lower : PageTableLevel)
    → next_lower_level level ≡ some lower
    → number level ≡ suc (number lower)
unfolding next_lower_level
number_lower level1 lower h = absurd (cc)
number_lower level2 lower h =
    let e : level1 ≡ lower = cc in ap (λ (l : PageTableLevel). suc (number l)) e
number_lower level3 lower h =
    let e : level2 ≡ lower = cc in ap (λ (l : PageTableLevel). suc (number l)) e
number_lower level4 lower h =
    let e : level3 ≡ lower = cc in ap (λ (l : PageTableLevel). suc (number l)) e

number_lowest : (level : PageTableLevel) → next_lower_level level ≡ none → level ≡ level1
unfolding next_lower_level
number_lowest level1 h = refl
number_lowest level2 h = absurd (cc)
number_lowest level3 h = absurd (cc)
number_lowest level4 h = absurd (cc)

-- The entry of a zeroed table.
zero_target :
    (lib : AddressLibrary) (level : PageTableLevel) {e : ℕ}
    → e ≡ 0
    → (target_inner lib e level ≡ ret unmapped) × (raw_address e ≡ 0)
unfolding target_inner is_present contains flags raw_address
zero_target lib level z = rw z (refl, refl)

module _ (lib : AddressLibrary) (p : Page) (addr : ℕ) (map_target : MapTarget) (f : ℕ) where
  -- The outcome at a table: the address is mapped to the target and every present entry is kept;
  -- or it was mapped already and nothing changes; or no page is free.
  pub data MapOutcome (m : Memory) (fuel : ℕ) (level : PageTableLevel) (table : ℕ)
      : Result Page MapError → Memory → Type 0 where
    done :
        {q : Page} {m' : Memory}
        → IsTarget map_target m.allocator m'.allocator q
        → translate_loop lib fuel m'.tables addr level table
          ≡ ret (mapped q (bit_or f present) (addr % 4096))
        → Kept m m'
        → IsReady m'.allocator
        → MapOutcome m fuel level table (ok q) m'
    taken :
        (q : Page) (g : ℕ)
        → translate_loop lib fuel m.tables addr level table
          ≡ ret (mapped q g (addr % size_bytes q.size))
        → MapOutcome m fuel level table (err (page_already_mapped q g)) m
    full :
        {m' : Memory}
        → Kept m m'
        → IsReady m'.allocator
        → ((q : ℕ) → is_used m'.allocator.bitmap q ≡ true)
        → MapOutcome m fuel level table (err physical_page_allocation_failed) m'

  module _ (small_page : p.size ≡ size4_kib)
      (same_index : (level : PageTableLevel) → index_of level addr ≡ index_of level p.start_addr)
      (fl : IsFlags f) (one_page : contains f huge_page ≡ false)
      (target_inside : TargetInside map_target) where
    -- What holds of the rest of the walk holds of the walk.
    through :
        (m m1 : Memory) (fuel : ℕ) (level lower : PageTableLevel) (table child : ℕ)
        (r : Result Page MapError) (m' : Memory)
        → Kept m m1
        → IsTable m1.allocator table
        → target_inner lib (m1.tables table (index_of level addr)) level
          ≡ ret (next_table lower child)
        → ((q : Page) (g : ℕ)
            → translate_loop lib fuel m1.tables addr lower child
              ≡ ret (mapped q g (addr % size_bytes q.size))
            → MapOutcome m (suc fuel) level table (err (page_already_mapped q g)) m1)
        → MapOutcome m1 fuel lower child r m'
        → MapOutcome m (suc fuel) level table r m'
    unfolding translate_step
    through m m1 fuel level lower table child r m' kept is_table at was_taken
          (done {q} t walk k ready) =
        let is_there =
          present_of_target lib (m1.tables table (index_of level addr)) level
            (next_table lower child) (λ e. cc) at in
        let same = k.entries table (index_of level addr) is_table is_there in
        done (IsTarget-earlier map_target m.allocator m1.allocator m'.allocator _ kept.used t)
          (translate_loop_lem lib m'.tables addr level table (next_table lower child) (rw same at)
              fuel
            ∙ walk)
          (Kept-trans kept k) ready
    through m m1 fuel level lower table child r m' kept is_table at was_taken (taken q g tr) =
        was_taken q g tr
    through m m1 fuel level lower table child r m' kept is_table at was_taken
          (full k ready none_free) =
        full (Kept-trans kept k) ready none_free

    -- One round.
    map_loop_round :
        (m : Memory) (fuel : ℕ) (level : PageTableLevel) (table : ℕ) (t : PageTableTarget)
        → target_inner lib (m.tables table (index_of level addr)) level ≡ ret t
        → map_loop lib p map_target f (suc fuel) level table m
          ≡ map_step lib p map_target f
              (map_loop lib p map_target f fuel)
              m
              level
              table
              (index_of level addr, t)
    unfolding map_loop
    map_loop_round m fuel level table t at = rw (
      address_target_lem lib m.tables p.start_addr level table t (rw (← same_index level) at),
      same_index level,
    )

    -- An outcome of the round, from the tables `m`.
    abbrev Ends : Memory → ℕ → PageTableLevel → ℕ → Exec (Result Page MapError × Memory) → Type 0
    Ends m fuel level table run =
        (r : Result Page MapError) × (m' : Memory) × (run ≡ ret (r, m'))
        × MapOutcome m fuel level table r m'

    Ends-eq :
        {m : Memory} {fuel : ℕ} {level : PageTableLevel} {table : ℕ}
        {run run' : Exec (Result Page MapError × Memory)}
        → run ≡ run'
        → Ends m fuel level table run'
        → Ends m fuel level table run
    Ends-eq e (r, m', run, o) = (r, m', e ∙ run, o)

    module _ (m : Memory) (fuel : ℕ) (level : PageTableLevel) (table : ℕ)
        (ready : IsReady m.allocator) (is_table : IsTable m.allocator table)
        (at : target_inner lib (m.tables table (index_of level addr)) level ≡ ret unmapped)
        (empty : raw_address (m.tables table (index_of level addr)) ≡ 0) where
      -- At the lowest level.
      map_page-Ends :
          (r : Option ℕ) (b : BitmapAllocator)
          → level ≡ level1
          → TargetAnswer map_target m.allocator r b
          → Ends m
              (suc fuel)
              level
              table
              (map_page lib m table (index_of level addr) f (Option.map page_of r, b))
      unfolding map_page translate_step
      map_page-Ends none b lowest (none_free, good, mono) = (
        err physical_page_allocation_failed,
        record { tables = m.tables; allocator = b },
        refl,
        full (record { used = mono; entries = λ t i h h'. refl }) good none_free,
      )
      map_page-Ends (some s) b lowest (inside, target, good, mono) =
          let (m', run, same, now, kept) =
            map_page-page_of lib m b table level addr s f at empty inside fl one_page mono lowest in
          (
            ok (page_of s),
            m',
            run,
            done (rw same target)
                (translate_loop_lem lib m'.tables addr level table
                  (page (page_of s) (bit_or f present)) now fuel)
                kept (rw same good),
          )

      -- Above it.
      map_below-Ends :
          (lower : PageTableLevel) (r : Option ℕ) (b : BitmapAllocator)
          → next_lower_level level ≡ some lower
          → Answer m.allocator r b
          → ((m1 : Memory) (child : ℕ)
              → IsReady m1.allocator
              → Walk lib m1 addr lower child
              → Ends m1 fuel lower child (map_loop lib p map_target f fuel lower child m1))
          → Ends m (suc fuel) level table (
              map_child_table lib m table
                (index_of level addr)
                (parent_flags f)
                (Option.map page_of r, b)
              >>= map_below lib (map_loop lib p map_target f fuel) lower)
      unfolding map_child_table map_below
      map_below-Ends lower none b next (none_free, same, good) again = (
        err physical_page_allocation_failed,
        record { tables = m.tables; allocator = b },
        refl,
        full
            (record {
              used = λ q h. ap (λ (l : List ℕ). is_used l q) same ∙ h;
              entries = λ t i h h'. refl;
            })
            good (λ q. ap (λ (l : List ℕ). is_used l q) same ∙ none_free q),
      )
      map_below-Ends lower (some s) b next took again =
          let (pf, ph) = parent_flags_lem f in
          let mono = λ (q : ℕ) (h : is_used m.allocator.bitmap q ≡ true). used_later took q h in
          let (m1, run, same, now, zeros, kept) =
            map_child_table-page_of lib m b table level addr s (parent_flags f) at empty took.inside
              pf ph mono lower next is_table took.was_free in
          let child = s * page_size + kernel_physical_mapping_start in
          let fresh = zero_target lib lower (zeros (index_of lower addr)) in
          let (r, m', run', o) =
            again m1 child (rw same took.ready) (stops (child-IsTable took same) fresh.0 fresh.1) in
          (
            r,
            m',
            rw run run',
            through m m1 fuel level lower table child r m' kept (kept.used _ is_table) now
                (λ q g walk. absurd (
                  not_mapped_at lib m1.tables addr lower child fuel q g (addr % size_bytes q.size)
                    fresh.0 walk))
                o,
          )

      map_unmapped-Ends :
          (next : Option PageTableLevel)
          → next_lower_level level ≡ next
          → ((lower : PageTableLevel)
              → next_lower_level level ≡ some lower
              → (m1 : Memory) (child : ℕ) → IsReady m1.allocator
              → Walk lib m1 addr lower child
              → Ends m1 fuel lower child (map_loop lib p map_target f fuel lower child m1))
          → Ends m (suc fuel) level table (
              map_unmapped lib p map_target f
                (map_loop lib p map_target f fuel)
                m
                table
                (index_of level addr)
                next)
      unfolding map_unmapped allocate_and_map_child_table
      map_unmapped-Ends none lowest again =
          let (r, b, run, answer) =
            get_target_page_lem lib map_target m.allocator target_inside ready in
          Ends-eq (rw (small_page, run)) (map_page-Ends r b (number_lowest level lowest) answer)
      map_unmapped-Ends (some lower) next again =
          let (r, b, run, answer) = allocate_page_lem lib m.allocator ready in
          Ends-eq (rw run) (map_below-Ends lower r b next answer (again lower next))

    pub map_loop_lem :
        (fuel : ℕ) (level : PageTableLevel) (table : ℕ) (m : Memory)
        → number level ≤ fuel
        → IsReady m.allocator
        → Walk lib m addr level table
        → Ends m fuel level table (map_loop lib p map_target f fuel level table m)
    unfolding map_step translate_step
    map_loop_lem zero level table m enough ready w = absurd (omega (arith, number_positive level))
    map_loop_lem (suc fuel) level table m enough ready (leaf q g is_table at) = (
      err (page_already_mapped q g),
      m,
      map_loop_round m fuel level table (page q g) at,
      taken q g (translate_loop_lem lib m.tables addr level table (page q g) at fuel),
    )
    map_loop_lem (suc fuel) level table m enough ready (down lower child is_table at walk) =
        let fits : number lower ≤ fuel =
          omega (arith, number_lower level lower (lower_of_target lib _ level lower child at)) in
        let (r, m', run, o) = map_loop_lem fuel lower child m fits ready walk in
        (
          r,
          m',
          map_loop_round m fuel level table (next_table lower child) at ∙ run,
          through m m fuel level lower table child r m' (Kept-refl m) is_table at
              (λ q g walk. taken q g (
                translate_loop_lem lib m.tables addr level table (next_table lower child) at fuel
                ∙ walk))
              o,
        )
    map_loop_lem (suc fuel) level table m enough ready (stops is_table at empty) =
        Ends-eq (map_loop_round m fuel level table unmapped at) (
          map_unmapped-Ends m fuel level table ready is_table at empty (next_lower_level level) refl
            (λ lower next m1 child good w.
              map_loop_lem fuel lower child m1 (omega (arith, number_lower level lower next)) good
                w))
