-- ===== src/RingBuffer/Refine.antt =====
-- The ring behaves as the list of its latest `N` elements, the latest first.
use rust_os.Prelude.{
  ℕ, zero, suc, ◌+◌, ◌-◌, ◌≤◌, ◌<◌, ◌≡◌, refl, sym, ap, ◌∙◌, true, false, Option, none, some, List,
  [], ◌∷◌, arith, dec_lt, dec_le, ℕ_discrete, leb, length, get_elem?, set, length-set,
  get_elem?-set_self, get_elem?-set_ne, get_elem?-some, get_elem?-none, get_elem?-replicate,
  get_elem?-take, drop-cons, drop_all, lt_of_get_elem?, take, drop, length-take, length-replicate,
  ret,
}
use native.Mathlib.Nat.{mod-eq_of_lt}
use rust_os.RingBuffer.{
  RingBuffer, capacity, slot, new, len, push, get, get_mut, reference, next, collect,
}
use rust_os.RingBuffer.Slots.{
  pushed, slot-lt, slot-injective, slot-pushed_zero, slot-pushed-suc, slot-ne-next_free,
}

pub record Refines {ℓ} {A : Type ℓ} (r : RingBuffer A) (q : List A) : Type ℓ where
  pub room : r.next_free < capacity r
  pub short : length q ≤ capacity r
  pub front : length q < capacity r → r.next_free ≡ length q
  pub slots : (i : ℕ) → i < capacity r → get_elem? r.elements (slot r i) ≡ some (get_elem? q i)

pub capacity-new {ℓ} : (A : Type ℓ) (n : ℕ) → capacity {A = A} (new n) ≡ n
unfolding new
capacity-new A n = length-replicate {A = Option A} n none

module _ {ℓ} {A : Type ℓ} where
  -- A new ring is empty.
  pub new-Refines : (n : ℕ) → 0 < n → Refines (new {A = A} n) []
  unfolding new
  new-Refines n pos = record {
    room = omega (arith, length-replicate {A = Option A} n none);
    short = omega arith;
    front = λ h. refl;
    slots = λ i h.
        get_elem?-replicate n (slot (new {A = A} n) i) none
          (ground (arith, length-replicate {A = Option A} n none));
  }

  -- A push never panics. It puts the element before the others and drops what exceeds `N`.
  pub push-Refines :
      (r : RingBuffer A) (q : List A) (a : A)
      → Refines r q
      → (r' : RingBuffer A) × (push r a ≡ ret r')
        × (capacity r' ≡ capacity r)
        × Refines r' (take (capacity r) (a ∷ q))
  unfolding push
  push-Refines r q a v =
      let (old, e) = get_elem?-some r.elements r.next_free v.room in
      let size : capacity (pushed r a) ≡ capacity r = length-set r.elements r.next_free (some a) in
      (
        pushed r a,
        rw e,
        size,
        record {
          room = omega (arith, size, v.room);
          short = omega (arith, size, length-take (capacity r) (a ∷ q));
          front = λ h.
              let small : suc (length q) < capacity r =
                omega (arith, size, length-take (capacity r) (a ∷ q)) in
              let next : r.next_free + 1 < capacity r = omega (arith, v.front (omega arith)) in
              omega (
                arith,
                size,
                length-take (capacity r) (a ∷ q),
                v.front (omega arith),
                mod-eq_of_lt next,
              );
          slots = λ i h. slot_holds i (omega (arith, size));
        },
      )
    where
      slot_holds :
          (i : ℕ)
          → i < capacity r
          → get_elem? (set r.elements r.next_free (some a)) (slot (pushed r a) i)
            ≡ some (get_elem? (take (capacity r) (a ∷ q)) i)
      slot_holds zero h = rw (
        slot-pushed_zero r a v.room,
        get_elem?-set_self r.elements r.next_free (some a) v.room,
        get_elem?-take (capacity r) 0 (a ∷ q) h,
      )
      slot_holds (suc i) h =
          rw
            (
              slot-pushed-suc r a v.room i h,
              get_elem?-set_ne r.elements {i = r.next_free} {j = slot r i} (some a)
                  (slot-ne-next_free r a v.room i h),
              get_elem?-take (capacity r) (suc i) (a ∷ q) h,
            )
            (v.slots i (omega arith))

  -- `get` reads the list, `None` beyond its end.
  pub get_lem :
      (r : RingBuffer A) (q : List A) (i : ℕ) → Refines r q → get r i ≡ ret (get_elem? q i)
  unfolding get
  get_lem r q i v = elim (dec_lt i (capacity r)) [
    | yes h ↦ let t : leb (capacity r) i ≡ false = ground arith in rw (t, v.slots i h)
    | no h ↦
        let t : leb (capacity r) i ≡ true = ground arith in
        rw (t, get_elem?-none q i (omega (arith, v.short)))
  ]

  -- `len` is the length of the list.
  pub len_lem : (r : RingBuffer A) (q : List A) → Refines r q → len r ≡ ret (length q)
  unfolding len
  len_lem r q v = elim (dec_lt (length q) (capacity r)) [
    | yes h ↦ rw (at_end (get_elem?-none q (capacity r - 1) (omega arith)), v.front h)
    | no h ↦
        let (a, e) = get_elem?-some q (capacity r - 1) (omega (arith, v.short, v.room)) in
        rw (at_end e) (ap ret (omega (arith, v.short)))
  ]
    where
      last_slot : slot r (capacity r - 1) ≡ r.next_free
      last_slot = ground (arith, v.room)

      at_end :
          {o : Option A}
          → get_elem? q (capacity r - 1) ≡ o
          → get_elem? r.elements r.next_free ≡ some o
      at_end {o} e =
          ap (get_elem? r.elements) (sym last_slot)
          ∙ v.slots (capacity r - 1) (omega (arith, v.room))
          ∙ ap some e

  -- Writing through `get_mut` replaces that element of the list.
  pub get_mut_lem :
      (r : RingBuffer A) (q : List A) (i : ℕ) (a b : A)
      → Refines r q
      → get_elem? q i ≡ some a
      → get_mut r i ≡ ret (reference r (slot r i) (some a))
        × Refines (record r { elements = set r.elements (slot r i) (some b) }) (set q i b)
  unfolding get_mut
  get_mut_lem r q i a b v e =
      let inside : i < length q = lt_of_get_elem? q i e in
      let fits : i < capacity r = omega (arith, v.short) in
      let t : leb (capacity r) i ≡ false = ground arith in
      let size : length (set r.elements (slot r i) (some b)) ≡ capacity r =
        length-set r.elements (slot r i) (some b) in
      let same_len : length (set q i b) ≡ length q = length-set q i b in
      (
        rw (t, v.slots i fits, e),
        record {
          room = omega (arith, size, v.room);
          short = omega (arith, size, same_len, v.short);
          front = λ h. v.front (omega (arith, size, same_len)) ∙ sym same_len;
          slots = λ j h. rw size (holds j (omega (arith, size)) inside fits);
        },
      )
    where
      holds :
          (j : ℕ)
          → j < capacity r
          → i < length q
          → i < capacity r
          → get_elem? (set r.elements (slot r i) (some b)) (slot r j)
            ≡ some (get_elem? (set q i b) j)
      holds j h inside fits = elim (ℕ_discrete i j) [
        | yes same ↦
            rw (← same, get_elem?-set_self q i b inside)
              (get_elem?-set_self r.elements (slot r i) (some b) (slot-lt r i v.room fits))
        | no ne ↦
            rw
              (
                get_elem?-set_ne q {i = i} {j = j} b ne,
                get_elem?-set_ne r.elements {i = slot r i} {j = slot r j} (some b)
                    (slot-injective r i j v.room fits h ne),
              )
              (v.slots j h)
      ]

  next_item :
      (r : RingBuffer A) (q : List A) (i : ℕ) {a : A}
      → Refines r q
      → get_elem? q i ≡ some a
      → next r i ≡ ret (some a, i + 1)
  unfolding next
  next_item r q i v e =
      let inside : leb (length q) i ≡ false = let h = lt_of_get_elem? q i e in ground arith in
      rw (len_lem r q v, inside, get_lem r q i v, e)

  next_end :
      (r : RingBuffer A) (q : List A) (i : ℕ)
      → Refines r q
      → length q ≤ i
      → next r i ≡ ret (none, i)
  unfolding next
  next_end r q i v h =
      let outside : leb (length q) i ≡ true = ground arith in rw (len_lem r q v, outside)

  collect_end :
      (r : RingBuffer A) (q : List A) (fuel i : ℕ)
      → Refines r q
      → length q ≤ i
      → collect (suc fuel) r i ≡ ret (drop i q)
  unfolding collect
  collect_end r q fuel i v h = rw (next_end r q i v h, drop_all i q h)

  collect_step :
      (r : RingBuffer A) (q : List A) (fuel i : ℕ) (a : A)
      → Refines r q
      → get_elem? q i ≡ some a
      → collect fuel r (i + 1) ≡ ret (drop (i + 1) q)
      → collect (suc fuel) r i ≡ ret (drop i q)
  unfolding collect
  collect_step r q fuel i a v e rest = rw (next_item r q i v e, rest, drop-cons i q e)

  -- The iterator yields the list, the latest element first, and then ends: fuel for one call of
  -- `next` more than there are elements is enough.
  pub collect_lem :
      (r : RingBuffer A) (q : List A) (fuel i : ℕ)
      → Refines r q
      → length q ≤ i + fuel
      → collect (suc fuel) r i ≡ ret (drop i q)
  collect_lem r q zero i v enough = collect_end r q zero i v (omega arith)
  collect_lem r q (suc fuel) i v enough = elim (dec_le (length q) i) [
    | yes h ↦ collect_end r q (suc fuel) i v h
    | no h ↦
        let (a, e) = get_elem?-some q i (omega arith) in
        collect_step r q (suc fuel) i a v e (collect_lem r q fuel (i + 1) v (omega arith))
  ]
