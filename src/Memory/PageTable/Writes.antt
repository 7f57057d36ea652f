-- ===== src/Memory/PageTable/Writes.antt =====
-- The words that `map_to` writes, and the tables after the write.
use rust_os.Prelude.{
  ℕ, zero, suc, ◌+◌, ◌-◌, ◌*◌, ◌/◌, ◌≤◌, bit_and, bit_or, ◌≡◌, refl, sym, ap, ap₂, ◌∙◌, ◌≢◌, inl,
  inr, true, false, ◌&&◌, some, arith, ◌==◌, Bool-cases, set, ret, and_assoc, and-or, and_le,
  bit_and-zero, bit_or-zero, ok,
}
use rust_os.BitmapAlloc.{BitmapAllocator}
use rust_os.BitmapAlloc.Pages.{is_used}
use rust_os.Memory.{
  AddressLibrary, page_size, kernel_physical_mapping_start, kernel_physical_mapping_end,
}
use rust_os.Memory.Physical.{to_phys_addr_lem}
use rust_os.Memory.PageTable.Entry.{
  PageTableLevel, level1, all_flags, next_lower_level, unmapped, page, present, huge_page,
  next_table, raw_address, is_present, target_inner, set_flags, set_address, flags, contains,
  set_target_page,
}
use rust_os.Memory.PageTable.Targets.{
  IsFlags, raw_address-set_flags, flags-set_flags, or_present, set_address_lem,
  page_number-IsAddress, leaf_target, link_target,
}
use rust_os.Memory.PageTable.Frames.{IsInside, page_of}
use rust_os.Memory.PageTable.Tables.{
  Tables, Memory, map_page, map_child_table, write_entry, zero_table, parent_flags,
}
use rust_os.Memory.PageTable.Walk.{absent_of_target, IsTable, Kept, index_of}

-- The word that a leaf or a link becomes.
module _ (e s g : ℕ) (empty : raw_address e ≡ 0) (inside : IsInside s) (fl : IsFlags g) where
  abbrev small : s * page_size ≤ kernel_physical_mapping_end - kernel_physical_mapping_start
  small = omega arith

  pub written :
      (w : ℕ) × (set_address e (s * page_size) ≡ ret w)
      × (raw_address (set_flags w (bit_or g present)) ≡ s * page_size)
      × (flags (set_flags w (bit_or g present)) ≡ bit_or g present)
  written =
      let (w, set, at) =
        set_address_lem e (s * page_size) empty (page_number-IsAddress s (omega arith)) in
      (
        w,
        set,
        raw_address-set_flags w (bit_or g present) (or_present g fl) ∙ at,
        flags-set_flags w (bit_or g present) (or_present g fl),
      )

-- `PRESENT` is among the flags, and `HUGE_PAGE` is not.
pub contains-present : (g : ℕ) → contains (bit_or g present) present ≡ true
unfolding contains
contains-present g = rw (and-or g 1 1) (ground (arith, and_le g 1, or_one (bit_and g 1)))
  where
    or_one : (x : ℕ) → x ≤ 1 → bit_or x 1 ≡ 1
    or_one zero h = refl
    or_one (suc zero) h = refl
    or_one (suc (suc x)) h = absurd (omega arith)

pub contains_huge :
    (g : ℕ) → contains g huge_page ≡ false → contains (bit_or g present) huge_page ≡ false
unfolding contains
contains_huge g h = rw (and-or g 1 128, bit_or-zero (bit_and g 128)) h

pub parent_flags_lem :
    (g : ℕ) → IsFlags (parent_flags g) × (contains (parent_flags g) huge_page ≡ false)
unfolding contains
parent_flags_lem g = (and_assoc g 7 all_flags, rw (and_assoc g 7 128, bit_and-zero g))

-- The store after a write.
pub write_entry-same : (T : Tables) (t i e : ℕ) → write_entry T t i e t i ≡ e
unfolding write_entry
write_entry-same T t i e = ground arith

write_entry-other :
    (T : Tables) (t i e t' i' : ℕ)
    → is_present (T t i) ≡ false
    → is_present (T t' i') ≡ true
    → write_entry T t i e t' i' ≡ T t' i'
unfolding write_entry
write_entry-other T t i e t' i' absent is = elim (Bool-cases (t' == t && i' == i)) [
  | inr differs ↦ rw differs
  | inl same ↦
      let st : t' ≡ t = ground (arith, same) in
      let si : i' ≡ i = ground (arith, same) in
      absurd (ground (arith, absent, is, ap is_present (ap₂ T st si)))
]

zero_table-other : (T : Tables) (c t i : ℕ) → t ≢ c → zero_table T c t i ≡ T t i
unfolding zero_table
zero_table-other T c t i ne = let differs : (t == c) ≡ false = ground (arith, ne) in rw differs

write_entry-below : (T : Tables) (t i e t' i' : ℕ) → t' ≢ t → write_entry T t i e t' i' ≡ T t' i'
unfolding write_entry
write_entry-below T t i e t' i' ne =
    let differs : (t' == t) ≡ false = ground (arith, ne) in rw differs

-- At `index` of `table` stands an entry that is not present and has no address; page `s` gets used.
module _ (lib : AddressLibrary) (m : Memory) (a : BitmapAllocator) (table : ℕ)
    (level : PageTableLevel) (addr s g : ℕ)
    (at : target_inner lib (m.tables table (index_of level addr)) level ≡ ret unmapped)
    (empty : raw_address (m.tables table (index_of level addr)) ≡ 0) (inside : IsInside s)
    (fl : IsFlags g) (one_page : contains g huge_page ≡ false)
    (mono : (q : ℕ) → is_used m.allocator.bitmap q ≡ true → is_used a.bitmap q ≡ true) where
  abbrev index : ℕ
  index = index_of level addr

  abbrev address : ℕ
  address = s * page_size + kernel_physical_mapping_start

  absent : is_present (m.tables table index) ≡ false
  absent = absent_of_target lib (m.tables table index) level at

  pub map_page-page_of :
      level ≡ level1
      → (m' : Memory) × (map_page lib m table index g (some (page_of s), a)
          ≡ ret (ok (page_of s), m'))
        × (m'.allocator ≡ a)
        × (target_inner lib (m'.tables table index) level
            ≡ ret (page (page_of s) (bit_or g present)))
        × Kept m m'
  unfolding map_page set_target_page
  map_page-page_of lowest =
      let (w, set, raw, flg) = written (m.tables table index) s g empty inside fl in
      let e = set_flags w (bit_or g present) in
      let m' : Memory = record { tables = write_entry m.tables table index e; allocator = a } in
      let here = write_entry-same m.tables table index e in
      (
        m',
        rw (to_phys_addr_lem lib s (omega arith), set),
        refl,
        rw (here, lowest)
            (leaf_target lib s e (bit_or g present) (omega arith) raw flg (contains-present g)
              (contains_huge g one_page)),
        record {
          used = mono;
          entries = λ t i h is. write_entry-other m.tables table index e t i absent is;
        },
      )

  pub map_child_table-page_of :
      (lower : PageTableLevel)
      → next_lower_level level ≡ some lower
      → IsTable m.allocator table
      → is_used m.allocator.bitmap s ≡ false
      → (m' : Memory) × (map_child_table lib m table index g (some (page_of s), a)
          ≡ ret (some address, m'))
        × (m'.allocator ≡ a)
        × (target_inner lib (m'.tables table index) level ≡ ret (next_table lower address))
        × ((i : ℕ) → m'.tables address i ≡ 0)
        × Kept m m'
  unfolding map_child_table
  map_child_table-page_of lower next is_table free =
      let other = differs is_table free in
      let T = zero_table m.tables address in
      let before = zero_table-other m.tables address table index other in
      let (w, set, raw, flg) = written (m.tables table index) s g empty inside fl in
      let e = set_flags w (bit_or g present) in
      let m' : Memory = record { tables = write_entry T table index e; allocator = a } in
      let here = write_entry-same T table index e in
      (
        m',
        rw (to_phys_addr_lem lib s (omega arith), before, set),
        refl,
        rw here (
            link_target lib s e (bit_or g present) (omega arith) raw flg (contains-present g)
              (contains_huge g one_page) level lower next),
        λ i. write_entry-below T table index e address i (λ same. other (sym same)) ∙ zeroed i,
        record {
          used = mono;
          entries = λ t i h is.
              let kept = zero_table-other m.tables address t i (differs h free) in
              write_entry-other T table index e t i (ap is_present before ∙ absent)
                (ap is_present kept ∙ is)
              ∙ kept;
        },
      )
    where
      differs : {t : ℕ} → IsTable m.allocator t → is_used m.allocator.bitmap s ≡ false → t ≢ address
      differs {t} h free same =
          let back : (t - kernel_physical_mapping_start) / page_size ≡ s = omega arith in
          absurd (cc (h, free, ap (is_used m.allocator.bitmap) back))

      zeroed : (i : ℕ) → zero_table m.tables address address i ≡ 0
      zeroed i = unfold zero_table in ground arith
