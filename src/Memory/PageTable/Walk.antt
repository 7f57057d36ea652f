-- ===== src/Memory/PageTable/Walk.antt =====
-- The walk through the tables to the entry for an address, and what a change of the tables leaves
-- as it is.
use rust_os.Prelude.{
  ℕ, zero, suc, ◌+◌, ◌-◌, ◌*◌, ◌/◌, ◌%◌, ◌^◌, bit_and, ◌≡◌, refl, ap, ◌∙◌, ◌≢◌, ◌⊎◌, inl, inr, true,
  false, Option, none, some, arith, ltb, Bool-cases, ret, Exec-cases, and_le,
}
use rust_os.BitmapAlloc.{BitmapAllocator}
use rust_os.BitmapAlloc.Pages.{is_used}
use rust_os.Memory.{
  AddressLibrary, Page, page_size, kernel_physical_mapping_start, size4_kib, size2_mib, size1_gib,
  PageSize, from_start_addr,
}
use rust_os.Memory.PageTable.Entry.{
  PageTableLevel, level1, level2, level3, level4, next_lower_level, PageTableTarget, unmapped, page,
  next_table, raw_address, is_present, target_inner, huge_target, lower_target, page_target,
  address, contains, flags, huge_page,
}
use rust_os.Memory.PageTable.Tables.{
  Tables, Memory, number, new_index, from_address, mapped, address_target, translate_step,
  translate_loop,
}

abbrev pub index_of : PageTableLevel → ℕ → ℕ
index_of level addr = bit_and (addr / 2 ^ (12 + (number level - 1) * 9)) 0b111111111 % 2 ^ 16

-- Every address has an index at every level.
pub from_address_lem :
    (level : PageTableLevel) (addr : ℕ) → from_address level addr ≡ ret (index_of level addr)
unfolding from_address new_index
from_address_lem level addr =
    let x = addr / 2 ^ (12 + (number level - 1) * 9) in
    let t : ltb (bit_and x 0b111111111 % 2 ^ 16) 512 ≡ true =
      ground (arith, and_le x 0b111111111) in
    rw t

-- The page of physical memory that holds the table is in use.
abbrev pub IsTable : BitmapAllocator → ℕ → Type 0
IsTable a table = is_used a.bitmap ((table - kernel_physical_mapping_start) / page_size) ≡ true

-- The walk from a table meets only tables in used pages, no entry that the code panics on, and at
-- an entry that is not present no rest of an address.
pub data Walk (lib : AddressLibrary) (m : Memory) (addr : ℕ) : PageTableLevel → ℕ → Type 0 where
  stops :
      {level : PageTableLevel} {table : ℕ}
      → IsTable m.allocator table
      → target_inner lib (m.tables table (index_of level addr)) level ≡ ret unmapped
      → raw_address (m.tables table (index_of level addr)) ≡ 0
      → Walk lib m addr level table
  leaf :
      {level : PageTableLevel} {table : ℕ} (q : Page) (g : ℕ)
      → IsTable m.allocator table
      → target_inner lib (m.tables table (index_of level addr)) level ≡ ret (page q g)
      → Walk lib m addr level table
  down :
      {level : PageTableLevel} {table : ℕ} (lower : PageTableLevel) (child : ℕ)
      → IsTable m.allocator table
      → target_inner lib (m.tables table (index_of level addr)) level ≡ ret (next_table lower child)
      → Walk lib m addr lower child
      → Walk lib m addr level table

-- No used page becomes free, and no entry that is present in a used page changes.
pub record Kept (m m' : Memory) : Type 0 where
  pub used : (q : ℕ) → is_used m.allocator.bitmap q ≡ true → is_used m'.allocator.bitmap q ≡ true
  pub entries :
      (t i : ℕ)
      → IsTable m.allocator t
      → is_present (m.tables t i) ≡ true
      → m'.tables t i ≡ m.tables t i

pub Kept-refl : (m : Memory) → Kept m m
Kept-refl m = record { used = λ q h. h; entries = λ t i h h'. refl }

pub Kept-trans : {m n k : Memory} → Kept m n → Kept n k → Kept m k
Kept-trans {m} {n} {k} x y = record {
  used = λ q h. y.used q (x.used q h);
  entries = λ t i h h'.
      let same = x.entries t i h h' in
      y.entries t i (x.used ((t - kernel_physical_mapping_start) / page_size) h)
        (ap is_present same ∙ h')
      ∙ same;
}

module _ (lib : AddressLibrary) where
  pub present_of_target :
      (e : ℕ) (level : PageTableLevel) (target : PageTableTarget)
      → target ≢ unmapped
      → target_inner lib e level ≡ ret target
      → is_present e ≡ true
  unfolding target_inner
  present_of_target e level target ne h = elim (Bool-cases (is_present e)) [
    | inl is ↦ is
    | inr isnt ↦ absurd (ground (arith, isnt, h, ne))
  ]

  pub page_target_made :
      (e : ℕ) (size : PageSize) (t : PageTableTarget)
      → page_target lib e size ≡ ret t
      → (a : ℕ) × (q : Page) × (address lib e ≡ ret a)
        × (from_start_addr lib a size ≡ ret q)
        × (t ≡ page q (flags e))
  unfolding page_target
  page_target_made e size t h = elim (Exec-cases (address lib e)) [
    | inl no_address ↦ absurd (ground (arith, no_address, h))
    | inr (a, at) ↦ elim (Exec-cases (from_start_addr lib a size)) [
      | inl unaligned ↦ absurd (ground (arith, at, unaligned, h))
      | inr (q, made) ↦ (a, q, at, made, ground (arith, at, made, h))
    ]
  ]

  page_target-page :
      (e : ℕ) (size : PageSize) (t : PageTableTarget)
      → page_target lib e size ≡ ret t
      → (q : Page) × (g : ℕ) × (t ≡ page q g)
  page_target-page e size t h =
      let (a, q, at, made, same) = page_target_made e size t h in (q, flags e, same)

  pub huge_target-page :
      (e : ℕ) (level : PageTableLevel) (t : PageTableTarget)
      → huge_target lib e level ≡ ret t
      → (q : Page) × (g : ℕ) × (t ≡ page q g)
  unfolding huge_target
  huge_target-page e level1 t h = absurd (cc)
  huge_target-page e level2 t h = page_target-page e size2_mib t h
  huge_target-page e level3 t h = page_target-page e size1_gib t h
  huge_target-page e level4 t h = absurd (cc)

  lower_target_lands :
      (e : ℕ) (next : Option PageTableLevel) (t : PageTableTarget)
      → lower_target lib e next ≡ ret t
      → ((q : Page) × (g : ℕ) × (t ≡ page q g))
        ⊎ ((lower : PageTableLevel) × (child : ℕ) × (next ≡ some lower)
            × (t ≡ next_table lower child))
  unfolding lower_target
  lower_target_lands e none t h = inl (page_target-page e size4_kib t h)
  lower_target_lands e (some l) t h = elim (Exec-cases (address lib e)) [
    | inl no_address ↦ absurd (ground (arith, no_address, h))
    | inr (a, at) ↦ inr (l, a, refl, ground (arith, at, h))
  ]

  -- An entry that is present leads to a page or to a table of the next lower level.
  present_lands :
      (e : ℕ) (level : PageTableLevel) (t : PageTableTarget)
      → is_present e ≡ true
      → target_inner lib e level ≡ ret t
      → ((q : Page) × (g : ℕ) × (t ≡ page q g))
        ⊎ ((lower : PageTableLevel) × (child : ℕ) × (next_lower_level level ≡ some lower)
            × (t ≡ next_table lower child))
  unfolding target_inner
  present_lands e level t is h = elim (Bool-cases (contains (flags e) huge_page)) [
    | inl huge ↦ inl (huge_target-page e level t (ground (arith, is, huge, h)))
    | inr one ↦ lower_target_lands e (next_lower_level level) t (ground (arith, is, one, h))
  ]

  pub absent_of_target :
      (e : ℕ) (level : PageTableLevel)
      → target_inner lib e level ≡ ret unmapped
      → is_present e ≡ false
  absent_of_target e level h = elim (Bool-cases (is_present e)) [
    | inr isnt ↦ isnt
    | inl is ↦ elim (present_lands e level unmapped is h) [
      | inl (q, g, t) ↦ absurd (cc)
      | inr (l, c, n, t) ↦ absurd (cc)
    ]
  ]

  pub lower_of_target :
      (e : ℕ) (level lower : PageTableLevel) (child : ℕ)
      → target_inner lib e level ≡ ret (next_table lower child)
      → next_lower_level level ≡ some lower
  lower_of_target e level lower child h =
      let is = present_of_target e level (next_table lower child) (λ e. cc) h in
      elim (present_lands e level (next_table lower child) is h) [
        | inl (q, g, t) ↦ absurd (cc)
        | inr (l, c, n, t) ↦ cc
      ]

  module _ (tables : Tables) (addr : ℕ) (level : PageTableLevel) (table : ℕ)
      (target : PageTableTarget)
      (at : target_inner lib (tables table (index_of level addr)) level ≡ ret target) where
    pub address_target_lem :
        address_target lib tables level table addr ≡ ret (index_of level addr, target)
    unfolding address_target
    address_target_lem = rw (from_address_lem level addr, at)

    pub translate_loop_lem :
        (fuel : ℕ)
        → translate_loop lib (suc fuel) tables addr level table
          ≡ translate_step lib (translate_loop lib fuel tables addr) addr target
    unfolding translate_loop
    translate_loop_lem fuel = rw address_target_lem

  -- Behind an entry that is not present there is no mapping.
  pub not_mapped_at :
      (tables : Tables) (addr : ℕ) (level : PageTableLevel) (table fuel : ℕ) (q : Page) (g o : ℕ)
      → target_inner lib (tables table (index_of level addr)) level ≡ ret unmapped
      → translate_loop lib fuel tables addr level table ≢ ret (mapped q g o)
  unfolding translate_loop translate_step
  not_mapped_at tables addr level table zero q g o at h = cc
  not_mapped_at tables addr level table (suc fuel) q g o at h =
      absurd (cc (translate_loop_lem tables addr level table unmapped at fuel, h))
