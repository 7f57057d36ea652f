-- ===== src/Memory/PageTable/Mappings.antt =====
-- What `map_to` means for `translate_address`.
use rust_os.Prelude.{
  ℕ, zero, suc, ◌+◌, ◌/◌, ◌%◌, ◌^◌, ◌≤◌, ◌<◌, ◌≡◌, sym, ◌∙◌, false, arith, ret, Result,
}
use rust_os.Memory.{AddressLibrary, Page, size4_kib}
use rust_os.Memory.PageTable.Entry.{
  PageTableLevel, level1, level2, level3, level4, page, next_table, huge_page, contains,
}
use rust_os.Memory.PageTable.Targets.{IsFlags}
use rust_os.Memory.PageTable.Frames.{IsReady}
use rust_os.Memory.PageTable.Tables.{
  Memory, MapTarget, MapError, mapped, translate_loop, translate_address, translate_step, map_to,
}
use rust_os.Memory.PageTable.Walk.{
  Walk, stops, leaf, down, Kept, Kept-refl, index_of, translate_loop_lem, present_of_target,
  not_mapped_at,
}
use rust_os.Memory.PageTable.MapTo.{MapOutcome, done, taken, full, TargetInside, map_loop_lem}

-- The addresses of a page of 4 KiB have the indices of its start.
same_index :
    (start addr : ℕ)
    → start % 4096 ≡ 0
    → start ≤ addr
    → addr < start + 4096
    → (level : PageTableLevel) → index_of level addr ≡ index_of level start
same_index start addr aligned lo hi level1 =
    let e : addr / 2 ^ 12 ≡ start / 2 ^ 12 = omega arith in rw e
same_index start addr aligned lo hi level2 =
    let e : addr / 2 ^ 21 ≡ start / 2 ^ 21 = omega arith in rw e
same_index start addr aligned lo hi level3 =
    let e : addr / 2 ^ 30 ≡ start / 2 ^ 30 = omega arith in rw e
same_index start addr aligned lo hi level4 =
    let e : addr / 2 ^ 39 ≡ start / 2 ^ 39 = omega arith in rw e

Walk-same_index :
    (lib : AddressLibrary) (m : Memory) (start addr : ℕ) {level : PageTableLevel} {table : ℕ}
    → ((l : PageTableLevel) → index_of l addr ≡ index_of l start)
    → Walk lib m start level table
    → Walk lib m addr level table
Walk-same_index lib m start addr {level} same (stops is_table at empty) =
    stops is_table (rw (same level) at) (rw (same level) empty)
Walk-same_index lib m start addr {level} same (leaf q g is_table at) =
    leaf q g is_table (rw (same level) at)
Walk-same_index lib m start addr {level} same (down lower child is_table at w) =
    down lower child is_table (rw (same level) at) (Walk-same_index lib m start addr same w)

MapOutcome-Kept :
    {lib : AddressLibrary} {p : Page} {addr : ℕ} {t : MapTarget} {f : ℕ} {m : Memory} {fuel : ℕ}
    {level : PageTableLevel} {table : ℕ} {r : Result Page MapError} {m' : Memory}
    → MapOutcome lib p addr t f m fuel level table r m'
    → Kept m m'
MapOutcome-Kept (done t w k ready) = k
MapOutcome-Kept {m = m} (taken q g w) = Kept-refl m
MapOutcome-Kept (full k ready none_free) = k

-- A mapping that a walk finds in used pages is found after a change that keeps the present entries.
Kept-translate :
    (lib : AddressLibrary) (m m' : Memory) (addr : ℕ) (q : Page) (g o fuel : ℕ)
    {level : PageTableLevel} {table : ℕ}
    → Kept m m'
    → Walk lib m addr level table
    → translate_loop lib fuel m.tables addr level table ≡ ret (mapped q g o)
    → translate_loop lib fuel m'.tables addr level table ≡ ret (mapped q g o)
unfolding translate_loop translate_step
Kept-translate lib m m' addr q g o zero k w h = absurd (cc)
Kept-translate lib m m' addr q g o (suc fuel) {level} {table} k (stops is_table at empty) h =
    absurd (not_mapped_at lib m.tables addr level table (suc fuel) q g o at h)
Kept-translate lib m m' addr q g o (suc fuel) {level} {table} k (leaf q' g' is_table at) h =
    let is_there =
      present_of_target lib (m.tables table (index_of level addr)) level (page q' g') (λ e. cc)
        at in
    let same = k.entries table (index_of level addr) is_table is_there in
    translate_loop_lem lib m'.tables addr level table (page q' g') (rw same at) fuel
    ∙ sym (translate_loop_lem lib m.tables addr level table (page q' g') at fuel)
    ∙ h
Kept-translate lib m m' addr q g o (suc fuel) {level} {table} k (down lower child is_table at w) h =
    let is_there =
      present_of_target lib (m.tables table (index_of level addr)) level (next_table lower child)
        (λ e. cc) at in
    let same = k.entries table (index_of level addr) is_table is_there in
    translate_loop_lem lib m'.tables addr level table (next_table lower child) (rw same at) fuel
    ∙ Kept-translate lib m m' addr q g o fuel k w (
        sym (translate_loop_lem lib m.tables addr level table (next_table lower child) at fuel) ∙ h)

module _ (lib : AddressLibrary) (p : Page) (t : MapTarget) (f : ℕ) (root : ℕ) (m : Memory)
    (small_page : p.size ≡ size4_kib) (aligned : p.start_addr % 4096 ≡ 0) (fl : IsFlags f)
    (one_page : contains f huge_page ≡ false) (inside : TargetInside t)
    (ready : IsReady m.allocator) (walk : Walk lib m p.start_addr level4 root) where
  -- The page has 4 KiB and is aligned, the flags are bits of `PageTableEntryFlags` without `HUGE_PAGE`,
  -- a given target is a page of the kernel's window, the allocator is valid, with page zero used and
  -- its pages in the window, and the walk to the page meets only tables in used pages, no entry that
  -- panics, and no rest of an address in an entry that is not present. Then `map_to` returns, and for
  -- every address of the page one of three things holds. It succeeds: the target is the given page, or
  -- a page that was free and is used now, and the address translates to it, with the flags and
  -- `PRESENT` and with the address's offset. Or it reports a page that the address is mapped to
  -- already, and nothing changes. Or it reports that no page could be allocated, and none is free.
  -- Used pages stay used, and no present entry in a used page changes.
  pub map_to_lem :
      (addr : ℕ)
      → p.start_addr ≤ addr
      → addr < p.start_addr + 4096
      → (r : Result Page MapError) × (m' : Memory) × (map_to lib p t f root m ≡ ret (r, m'))
        × MapOutcome lib p addr t f m 4 level4 root r m'
  unfolding map_to
  map_to_lem addr lo hi =
      let same = same_index p.start_addr addr aligned lo hi in
      map_loop_lem lib p addr t f small_page same fl one_page inside 4 level4 root m (omega arith)
        ready (Walk-same_index lib m p.start_addr addr same walk)

  -- Under the same conditions `map_to` returns and disturbs no other mapping: an address whose walk
  -- meets the same conditions and that translates to a page translates to the same page, flags and
  -- offset afterwards, whatever the answer of `map_to`.
  pub map_to-translate_address :
      (addr : ℕ) (q : Page) (g o : ℕ)
      → Walk lib m addr level4 root
      → translate_address lib m.tables root addr ≡ ret (mapped q g o)
      → (r : Result Page MapError) × (m' : Memory) × (map_to lib p t f root m ≡ ret (r, m'))
        × (translate_address lib m'.tables root addr ≡ ret (mapped q g o))
  unfolding translate_address
  map_to-translate_address addr q g o w h =
      let (r, m', run, outcome) = map_to_lem p.start_addr (omega arith) (omega arith) in
      (r, m', run, Kept-translate lib m m' addr q g o 4 (MapOutcome-Kept outcome) w h)
