-- ===== src/Virtio/Queue/Chain.antt =====
-- Adding a chain of descriptors, and what the table holds then.
use rust_os.Prelude.{
  ℕ, zero, suc, ◌+◌, ◌%◌, ◌^◌, ◌≤◌, ◌<◌, ◌≡◌, refl, sym, ap, subst, ◌∙◌, ◌≢◌, Bool, true, false,
  Option, none, some, List, [], ◌∷◌, arith, ltb, ◌==◌, if◌then◌else◌, length, get_elem?, set,
  length-set, get_elem?-set_self, get_elem?-set_ne, get_elem?-some, ret,
}
use native.Mathlib.Nat.{mod-lt, mod-add-mod}
use mathlib.Core.Option
use rust_os.Virtio.Queue.{
  is_power_of_two, to_elem_index, ChainedVirtQueueDescriptorElem, RawVirtQueueDescriptor,
  VirtQueueDescriptorTable, link, link_previous, raw, get_or_insert, add_all,
}
use rust_os.Virtio.Queue.Index.{pos, fits, wrap, slots_differ}

abbrev pub size : VirtQueueDescriptorTable → ℕ
size t = length t.descriptors

-- The slot of the `j`-th descriptor from the counter on.
abbrev pub slot : VirtQueueDescriptorTable → ℕ → ℕ
slot t j = (t.raw_next_index + j) % size t

-- A descriptor in the table: the last of a chain, or one that points on.
abbrev pub node : ChainedVirtQueueDescriptorElem → Bool → ℕ → RawVirtQueueDescriptor
node e last next = if last then raw e else link next (raw e)

abbrev pub is_last : List ChainedVirtQueueDescriptorElem → ℕ → Bool
is_last es j = length es == suc j

-- What a later chain does to the descriptor before it.
abbrev relink :
    List ChainedVirtQueueDescriptorElem
    → ℕ
    → Option RawVirtQueueDescriptor
    → Option RawVirtQueueDescriptor
relink [] s o = o
relink (e ∷ es) s o = Option.map (link s) o

-- No descriptor of the chain sets a flag that the queue itself uses.
abbrev pub IsPlain : List ChainedVirtQueueDescriptorElem → Type 0
IsPlain [] = Unit {0}
IsPlain (e ∷ es) = (e.flags.indirect ≡ false) × (e.flags.next ≡ false) × IsPlain es

-- The table after the descriptors of `es` are added.
pub record Added (t t' : VirtQueueDescriptorTable) (prev : Option ℕ)
    (es : List ChainedVirtQueueDescriptorElem) : Type 0 where
  pub same_size : size t' ≡ size t
  pub entries :
      (j : ℕ) (e : ChainedVirtQueueDescriptorElem)
      → get_elem? es j ≡ some e
      → get_elem? t'.descriptors (slot t j) ≡ some (node e (is_last es j) (slot t (suc j)))
  pub previous :
      (p : ℕ)
      → prev ≡ some p
      → get_elem? t'.descriptors p ≡ relink es (slot t 0) (get_elem? t.descriptors p)
  pub others :
      (q : ℕ)
      → ((j : ℕ) → j < length es → q ≢ slot t j)
      → prev ≢ some q
      → get_elem? t'.descriptors q ≡ get_elem? t.descriptors q

-- The previous descriptor is none of those to be added.
abbrev Before : VirtQueueDescriptorTable → Option ℕ → ℕ → Type 0
Before t none n = Unit {0}
Before t (some p) n = (p < size t) × ((j : ℕ) → j < n → p ≢ slot t j)

link_previous_lem :
    (t : VirtQueueDescriptorTable) (prev : Option ℕ) (n idx : ℕ)
    → Before t prev n
    → (l : List RawVirtQueueDescriptor) × (link_previous prev idx t.descriptors ≡ ret l)
      × (length l ≡ size t)
      × ((p : ℕ)
          → prev ≡ some p
          → get_elem? l p ≡ Option.map (link idx) (get_elem? t.descriptors p))
      × ((q : ℕ) → prev ≢ some q → get_elem? l q ≡ get_elem? t.descriptors q)
unfolding link_previous
link_previous_lem t none n idx b = (t.descriptors, refl, refl, (λ p e. absurd (cc)), λ q e. refl)
link_previous_lem t (some p) n idx b =
    let (d, e) = get_elem?-some t.descriptors p b.0 in
    let size_same = length-set t.descriptors p (link idx d) in
    let inside : ltb p (length t.descriptors) ≡ true = let h = b.0 in ground arith in
    (
      set t.descriptors p (link idx d),
      rw (e, inside),
      size_same,
      (λ q same.
          let eq : p ≡ q = cc in rw (← eq, get_elem?-set_self t.descriptors p (link idx d) b.0, e)),
      λ q ne.
          get_elem?-set_ne t.descriptors {i = p} {j = q} (link idx d) (λ same. ne (ap some same)),
    )

abbrev pub first_of : List ChainedVirtQueueDescriptorElem → Option ℕ → ℕ → Option ℕ
first_of [] first s = first
first_of (e ∷ es) first s = get_or_insert first s

module _ (t : VirtQueueDescriptorTable) (power : is_power_of_two (size t) ≡ true)
    (e : ChainedVirtQueueDescriptorElem) (l : List RawVirtQueueDescriptor)
    (same : length l ≡ size t) where
  -- The table after one round of the loop.
  abbrev stepped : VirtQueueDescriptorTable
  stepped = record t {
    raw_next_index = (t.raw_next_index + 1) % 2 ^ 16;
    descriptors = set l (slot t 0) (raw e);
  }

  stepped-size : size stepped ≡ size t
  stepped-size = length-set l (slot t 0) (raw e) ∙ same

  stepped-slot : (j : ℕ) → slot stepped j ≡ slot t (suc j)
  stepped-slot j =
      let shift : t.raw_next_index + 1 + j ≡ t.raw_next_index + suc j = omega arith in
      rw (
        stepped-size,
        ← mod-add-mod ((t.raw_next_index + 1) % 2 ^ 16) (size t) j,
        wrap (size t) power (t.raw_next_index + 1),
        mod-add-mod (t.raw_next_index + 1) (size t) j,
        shift,
      )

  slot-lt : (j : ℕ) → slot t j < size t
  slot-lt j = mod-lt (t.raw_next_index + j) (pos (size t) power)

  stepped-at : get_elem? stepped.descriptors (slot t 0) ≡ some (raw e)
  stepped-at = get_elem?-set_self l (slot t 0) (raw e) (rw same (slot-lt 0))

  stepped-off : (q : ℕ) → q ≢ slot t 0 → get_elem? stepped.descriptors q ≡ get_elem? l q
  stepped-off q ne = get_elem?-set_ne l {i = slot t 0} {j = q} (raw e) (λ h. ne (sym h))

add_all-step :
    (t : VirtQueueDescriptorTable) (e : ChainedVirtQueueDescriptorElem)
    (es : List ChainedVirtQueueDescriptorElem) (first prev : Option ℕ)
    (l : List RawVirtQueueDescriptor)
    → is_power_of_two (size t) ≡ true
    → e.flags.indirect ≡ false
    → link_previous prev (slot t 0) t.descriptors ≡ ret l
    → length l ≡ size t
    → add_all (e ∷ es) first prev t
      ≡ add_all es (get_or_insert first (slot t 0)) (some (slot t 0)) (record t {
        raw_next_index = (t.raw_next_index + 1) % 2 ^ 16;
        descriptors = set l (slot t 0) (raw e);
      })
unfolding add_all to_elem_index
add_all-step t e es first prev l power direct linked same =
    let zero_off : (t.raw_next_index + 0) % size t ≡ t.raw_next_index % size t =
      rw (add_zero t.raw_next_index) in
    let linked' : link_previous prev (t.raw_next_index % size t) t.descriptors ≡ ret l =
      rw (← zero_off) linked in
    let inside : ltb (t.raw_next_index % size t) (length l) ≡ true =
      let h = mod-lt t.raw_next_index (pos (size t) power) in ground (arith, same) in
    rw (fits (size t) power, power, linked', direct, inside, zero_off)
  where
    add_zero : (n : ℕ) → n + 0 ≡ n
    add_zero n = omega arith

first_of-get_or_insert :
    (es : List ChainedVirtQueueDescriptorElem) (first : Option ℕ) (s s' : ℕ)
    → first_of es (get_or_insert first s) s' ≡ get_or_insert first s
first_of-get_or_insert [] first s s' = refl
first_of-get_or_insert (e ∷ es) none s s' = refl
first_of-get_or_insert (e ∷ es) (some f) s s' = refl

relink-node :
    (e : ChainedVirtQueueDescriptorElem) (es : List ChainedVirtQueueDescriptorElem) (s : ℕ)
    → relink es s (some (raw e)) ≡ some (node e (is_last (e ∷ es) 0) s)
relink-node e [] s = refl
relink-node e (d ∷ es) s = let test : (suc (suc (length es)) == 1) ≡ false = ground arith in rw test

Before-ne :
    (t : VirtQueueDescriptorTable) (prev : Option ℕ) (n p j : ℕ)
    → Before t prev n
    → prev ≡ some p
    → j < n
    → p ≢ slot t j
Before-ne t none n p j b h lt = cc
Before-ne t (some q) n p j b h lt =
    let same : q ≡ p = cc in subst (λ x. x ≢ slot t j) same (b.1 j lt)

module _ (t : VirtQueueDescriptorTable) (power : is_power_of_two (size t) ≡ true)
    (e : ChainedVirtQueueDescriptorElem) (l : List RawVirtQueueDescriptor)
    (same : length l ≡ size t) (es : List ChainedVirtQueueDescriptorElem) (prev : Option ℕ)
    (t' : VirtQueueDescriptorTable) where
  step-entries :
      Added (stepped t power e l same) t' (some (slot t 0)) es
      → (j : ℕ) (d : ChainedVirtQueueDescriptorElem) → get_elem? (e ∷ es) j ≡ some d
      → get_elem? t'.descriptors (slot t j) ≡ some (node d (is_last (e ∷ es) j) (slot t (suc j)))
  step-entries added zero d h =
      let u = stepped t power e l same in
      let same_elem : e ≡ d = cc in
      added.previous (slot t 0) refl
      ∙ ap (relink es (slot u 0)) (stepped-at t power e l same)
      ∙ rw (stepped-slot t power e l same 0, ← same_elem) (relink-node e es (slot t 1))
  step-entries added (suc j) d h =
      let u_slot = stepped-slot t power e l same in
      let test : (suc (length es) == suc (suc j)) ≡ (length es == suc j) = ground arith in
      rw (test, ← u_slot j, ← u_slot (suc j)) (added.entries j d h)

  -- A round of the loop, then the other rounds.
  step-Added :
      length (e ∷ es) ≤ size t
      → Before t prev (length (e ∷ es))
      → ((p : ℕ)
          → prev ≡ some p
          → get_elem? l p ≡ Option.map (link (slot t 0)) (get_elem? t.descriptors p))
      → ((q : ℕ) → prev ≢ some q → get_elem? l q ≡ get_elem? t.descriptors q)
      → Added (stepped t power e l same) t' (some (slot t 0)) es
      → Added t t' prev (e ∷ es)
  step-Added room before at_prev off_prev added =
      let u_slot = stepped-slot t power e l same in
      let off = stepped-off t power e l same in
      record {
        same_size = added.same_size ∙ stepped-size t power e l same;
        entries = step-entries added;
        previous = λ p h.
            let away = Before-ne t prev (suc (length es)) p in
            let not_first = away 0 before h (omega arith) in
            added.others p (λ j lt. rw (u_slot j) (away (suc j) before h (omega arith)))
              (λ eq. not_first cc)
            ∙ off p not_first
            ∙ at_prev p h;
        others = λ q away h.
            added.others q (λ j lt. rw (u_slot j) (away (suc j) (omega arith)))
              (λ eq. away 0 (omega arith) cc)
            ∙ off q (away 0 (omega arith))
            ∙ off_prev q h;
      }

-- The outcome of the loop: the first index, and the table.
pub add_all-Added :
    (es : List ChainedVirtQueueDescriptorElem) (t : VirtQueueDescriptorTable)
    (first prev : Option ℕ)
    → is_power_of_two (size t) ≡ true
    → length es ≤ size t
    → IsPlain es
    → Before t prev (length es)
    → (t' : VirtQueueDescriptorTable) × (add_all es first prev t
        ≡ ret (first_of es first (slot t 0), t'))
      × Added t t' prev es
unfolding add_all
add_all-Added [] t first prev power room plain before = (
  t,
  refl,
  record {
    same_size = refl;
    entries = λ j e h. cc;
    previous = λ p h. refl;
    others = λ q away h. refl;
  },
)
add_all-Added (e ∷ es) t first prev power room plain before =
    let (l, linked, same, at_prev, off_prev) =
      link_previous_lem t prev (suc (length es)) (slot t 0) before in
    let u = stepped t power e l same in
    let u_size = stepped-size t power e l same in
    let u_slot = stepped-slot t power e l same in
    let u_power : is_power_of_two (size u) ≡ true = rw u_size power in
    let s_lt : slot t 0 < size u = rw u_size (slot-lt t power e l same 0) in
    let apart : (j : ℕ) → j < length es → slot t 0 ≢ slot u j = λ j h.
      rw (u_slot j)
        (slots_differ (size t) power t.raw_next_index 0 (suc j) (omega arith) (omega arith)) in
    let (t', run, added) =
      add_all-Added es u (get_or_insert first (slot t 0)) (some (slot t 0)) u_power
        (rw u_size (omega arith)) plain.2 (s_lt, apart) in
    (
      t',
      add_all-step t e es first prev l power plain.0 linked same
          ∙ run
          ∙ ap (λ o. ret (o, t')) (first_of-get_or_insert es first (slot t 0) (slot u 0)),
      step-Added t power e l same es prev t' room before at_prev off_prev added,
    )
