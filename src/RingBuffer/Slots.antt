-- ===== src/RingBuffer/Slots.antt =====
-- Where the ring keeps the element of an index, and what a push does to it.
use rust_os.Prelude.{ℕ, suc, ◌+◌, ◌%◌, ◌<◌, ◌≡◌, ◌≢◌, ◌⊎◌, some, arith, set, length-set}
use rust_os.RingBuffer.{RingBuffer, capacity, slot}

-- The ring with one more element, as `push` leaves it.
abbrev pub pushed {ℓ} : {A : Type ℓ} → RingBuffer A → A → RingBuffer A
pushed r a = record r {
  elements = set r.elements r.next_free (some a);
  next_free = (r.next_free + 1) % capacity r;
}

module _ {ℓ} {A : Type ℓ} (r : RingBuffer A) (a : A) (room : r.next_free < capacity r) where
  wrap :
      ((r.next_free + 1) % capacity r ≡ r.next_free + 1)
      ⊎ (((r.next_free + 1) % capacity r ≡ 0) × (r.next_free + 1 ≡ capacity r))
  wrap = grind arith

  -- The latest element is index 0, and all others move up by one.
  pub slot-pushed_zero : slot (pushed r a) 0 ≡ r.next_free
  slot-pushed_zero = ground (arith, wrap, length-set r.elements r.next_free (some a))

  pub slot-pushed-suc : (i : ℕ) → suc i < capacity r → slot (pushed r a) (suc i) ≡ slot r i
  slot-pushed-suc i h = ground (arith, wrap, length-set r.elements r.next_free (some a))

  pub slot-ne-next_free : (i : ℕ) → suc i < capacity r → r.next_free ≢ slot r i
  slot-ne-next_free i h = ground arith

pub slot-lt {ℓ} :
    {A : Type ℓ} (r : RingBuffer A) (i : ℕ)
    → r.next_free < capacity r
    → i < capacity r
    → slot r i < capacity r
slot-lt r i room h = ground arith

-- Two indices share no slot.
pub slot-injective {ℓ} :
    {A : Type ℓ} (r : RingBuffer A) (i j : ℕ)
    → r.next_free < capacity r
    → i < capacity r
    → j < capacity r
    → i ≢ j
    → slot r i ≢ slot r j
slot-injective r i j room h k ne = ground arith
