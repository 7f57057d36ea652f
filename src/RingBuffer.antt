-- ===== src/RingBuffer.antt =====
-- crates/ring_buffer/src/lib.rs: a ring that keeps the latest elements.
pub mod Slots
pub mod Refine
pub mod History
mod Tests
use rust_os.Prelude.{
  ℕ, zero, suc, ◌+◌, ◌-◌, ◌%◌, Bool, true, false, not, Option, none, some, List, [], ◌∷◌, ltb, leb,
  if◌then◌else◌, length, get_elem?, set, replicate, Exec, ret, ◌>>=◌, expect, ◌>>◌,
}

-- `N` is the length of `elements`.
pub record RingBuffer {ℓ} (A : Type ℓ) : Type ℓ where
  pub elements : List (Option A)
  pub next_free : ℕ

abbrev pub is_some {ℓ} : {A : Type ℓ} → Option A → Bool
is_some none = false
is_some (some a) = true

module _ {ℓ} {A : Type ℓ} where
  abbrev pub capacity : RingBuffer A → ℕ
  capacity r = length r.elements

  unfoldable pub new : ℕ → RingBuffer A
  new n = record { elements = replicate n none; next_free = 0 }

  unfoldable pub len : RingBuffer A → Exec ℕ
  len r = do
    element ← expect (get_elem? r.elements r.next_free)
    ret (if is_some element then capacity r else r.next_free)

  -- `next_free` is below `N`, so `next_free + 1` does not wrap; for `N` zero the index panics.
  unfoldable pub push : RingBuffer A → A → Exec (RingBuffer A)
  push r element = do
    _ ← expect (get_elem? r.elements r.next_free)
    ret (record r {
      elements = set r.elements r.next_free (some element);
      next_free = (r.next_free + 1) % capacity r;
    })

  -- The index that `get` and `get_mut` compute below `N`.
  abbrev pub slot : RingBuffer A → ℕ → ℕ
  slot r index =
      if ltb index r.next_free
      then r.next_free - index - 1
      else capacity r - 1 - (index - r.next_free)

  unfoldable pub get : RingBuffer A → ℕ → Exec (Option A)
  get r index =
      if leb (capacity r) index then ret none else expect (get_elem? r.elements (slot r index))

  -- A mutable reference is the value with the function that writes it back.
  abbrev pub reference : RingBuffer A → ℕ → Option A → Option (A × (A → RingBuffer A))
  reference r i none = none
  reference r i (some a) = some (a, λ b. record r { elements = set r.elements i (some b) })

  unfoldable pub get_mut : RingBuffer A → ℕ → Exec (Option (A × (A → RingBuffer A)))
  get_mut r index =
      if leb (capacity r) index
      then ret none
      else (expect (get_elem? r.elements (slot r index)) >>= λ e.
          ret (reference r (slot r index) e))

  -- `RingBufferIter::next` at `index`: the item, and the next index.
  unfoldable pub next : RingBuffer A → ℕ → Exec (Option A × ℕ)
  next r index = do
    n ← len r
    item ← if leb n index then ret none else get r index
    ret (item, if leb n index then index else index + 1)

  -- A loop over the iterator that takes its items, with fuel.
  unfoldable pub collect : ℕ → RingBuffer A → ℕ → Exec (List A)
  collect zero r index = ret []
  collect (suc fuel) r index = do
    (item, index') ← next r index
    elim item [ none ↦ ret [] | some a ↦ (collect fuel r index' >>= λ rest. ret (a ∷ rest)) ]
