-- ===== src/Block/Memory.antt =====
-- A device in memory, a function from byte addresses to bytes: it meets the laws of a driver.
use rust_os.Prelude.{
  ℕ, zero, suc, ◌+◌, ◌-◌, ◌*◌, ◌≤◌, ◌<◌, ◌≡◌, refl, ap, ◌⊎◌, inl, inr, true, false, ◌&&◌, List, [],
  ◌∷◌, arith, ltb, leb, if◌then◌else◌, length, get_or,
}
use native.Mathlib.Nat.{mul-le-mul_right}
use rust_os.Block.{BlockDeviceDriver}

abbrev pub device_bytes : (ℕ → ℕ) → ℕ → ℕ → List ℕ
device_bytes s at zero = []
device_bytes s at (suc n) = s at ∷ device_bytes s (at + 1) n

pub length-device_bytes : (s : ℕ → ℕ) (at n : ℕ) → length (device_bytes s at n) ≡ n
length-device_bytes s at zero = refl
length-device_bytes s at (suc n) = ap suc (length-device_bytes s (at + 1) n)

device_bytes_same :
    (s t : ℕ → ℕ) (at n : ℕ)
    → ((i : ℕ) → at ≤ i → i < at + n → s i ≡ t i)
    → device_bytes s at n ≡ device_bytes t at n
device_bytes_same s t at zero h = refl
device_bytes_same s t at (suc n) h =
    let e = h at (omega arith) (omega arith) in
    let rest = device_bytes_same s t (at + 1) n (λ i a b. h i (omega arith) (omega arith)) in cc

pub device_bytes_all :
    (s : ℕ → ℕ) (at n : ℕ) (l : List ℕ)
    → length l ≡ n
    → ((i : ℕ) → i < n → s (at + i) ≡ get_or l i 0)
    → device_bytes s at n ≡ l
device_bytes_all s at zero [] size h = refl
device_bytes_all s at zero (x ∷ l) size h = absurd (omega arith)
device_bytes_all s at (suc n) [] size h = absurd (omega arith)
device_bytes_all s at (suc n) (x ∷ l) size h =
    let e : s (at + 0) ≡ x = h 0 (omega arith) in
    let here : at + 0 ≡ at = omega arith in
    let rest = device_bytes_all s (at + 1) n l (omega arith) (λ i low.
      let next : at + 1 + i ≡ at + suc i = omega arith in rw next (h (suc i) (omega arith))) in
    let head : s at ≡ x = rw (← here) e in cc

abbrev pub written : (ℕ → ℕ) → ℕ → List ℕ → ℕ → ℕ
written s at bytes i =
    if leb at i && ltb i (at + length bytes) then get_or bytes (i - at) 0 else s i

pub written_inside :
    (s : ℕ → ℕ) (at : ℕ) (bytes : List ℕ) (i : ℕ)
    → i < length bytes
    → written s at bytes (at + i) ≡ get_or bytes i 0
written_inside s at bytes i h =
    let t1 : leb at (at + i) ≡ true = ground arith in
    let t2 : ltb (at + i) (at + length bytes) ≡ true = ground arith in
    let back : at + i - at ≡ i = omega arith in rw (t1, t2, back)

written_outside :
    (s : ℕ → ℕ) (at : ℕ) (bytes : List ℕ) (i : ℕ)
    → i < at ⊎ at + length bytes ≤ i
    → written s at bytes i ≡ s i
written_outside s at bytes i (inl h) = let t : leb at i ≡ false = ground arith in rw t
written_outside s at bytes i (inr h) =
    let t1 : leb at i ≡ true = ground arith in
    let t2 : ltb i (at + length bytes) ≡ false = ground arith in rw (t1, t2)

module _ (size : ℕ) where
  pub read_apart :
      (s : ℕ → ℕ) (start num : ℕ) (bytes : List ℕ) (at count : ℕ)
      → length bytes ≡ num * size
      → at + count ≤ start ⊎ start + num ≤ at
      → device_bytes (written s (start * size) bytes) (at * size) (count * size)
        ≡ device_bytes s (at * size) (count * size)
  read_apart s start num bytes at count h (inl below) =
      let order : at * size + count * size ≤ start * size =
        omega (arith, mul-le-mul_right size below) in
      device_bytes_same (written s (start * size) bytes) s (at * size) (count * size)
        (λ i a b. written_outside s (start * size) bytes i (inl (omega arith)))
  read_apart s start num bytes at count h (inr above) =
      let order : start * size + num * size ≤ at * size =
        omega (arith, mul-le-mul_right size above) in
      device_bytes_same (written s (start * size) bytes) s (at * size) (count * size)
        (λ i a b. written_outside s (start * size) bytes i (inr (omega arith)))

  abbrev pub memory_device : BlockDeviceDriver (ℕ → ℕ)
  memory_device = record {
    device_block_size = size;
    read_address = λ s start num. 4096;
    read_device_blocks = λ s start num. device_bytes s (start * size) (num * size);
    write_device_blocks = λ s start bytes. written s (start * size) bytes;
    length-read = λ s start num. length-device_bytes s (start * size) (num * size);
    read-write = λ s start num bytes h.
        device_bytes_all (written s (start * size) bytes) (start * size) (num * size) bytes h
          (λ i low. written_inside s (start * size) bytes i (omega arith));
    read-write_apart = read_apart;
  }
