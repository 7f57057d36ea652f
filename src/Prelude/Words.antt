-- ===== src/Prelude/Words.antt =====
-- The laws of the bitwise operations on whole words, by recursion on the digits.
use Prim.Native.Nat.{ℕ, zero, suc, ◌+◌, ◌/◌, ◌≤◌, bit_and, bit_or, bit_and-bitwise, bit_or-bitwise}
use mathlib.Core.Path.{◌≡◌, refl}
use native.Mathlib.Omega.{arith}
use rust_os.Prelude.Bits.{and_step, or_step}

pub zero_and : (b : ℕ) → bit_and 0 b ≡ 0
zero_and b = simp bit_and-bitwise refl

pub zero_or : (b : ℕ) → bit_or 0 b ≡ b
zero_or b = simp bit_or-bitwise refl

-- Each law, for a first word `a ≤ k`.
assoc_below : (k a b c : ℕ) → a ≤ k → bit_and (bit_and a b) c ≡ bit_and a (bit_and b c)
assoc_below k zero b c h = rw (zero_and b, zero_and c, zero_and (bit_and b c)) refl
assoc_below zero (suc a) b c h = absurd (omega arith)
assoc_below (suc k) (suc a) b c h =
    let ih = assoc_below k (suc a / 2) (b / 2) (c / 2) (omega arith) in
    let ab = and_step (suc a) b in
    let bc = and_step b c in
    let abc = and_step (bit_and (suc a) b) c in
    let abc' = and_step (suc a) (bit_and b c) in
    let h1 : bit_and (suc a) b / 2 ≡ bit_and (suc a / 2) (b / 2) = omega (arith, ab) in
    let h2 : bit_and b c / 2 ≡ bit_and (b / 2) (c / 2) = omega (arith, bc) in
    rw (abc, abc', h1, h2, ih) (omega (arith, ab, bc))

pub and_assoc : (a b c : ℕ) → bit_and (bit_and a b) c ≡ bit_and a (bit_and b c)
and_assoc a b c = assoc_below a a b c (omega arith)

distrib_below :
    (k a b c : ℕ) → a ≤ k → b ≤ k → bit_and (bit_or a b) c ≡ bit_or (bit_and a c) (bit_and b c)
distrib_below zero a b c ha hb =
    let a0 : a ≡ 0 = omega arith in
    let b0 : b ≡ 0 = omega arith in rw (a0, b0, zero_or 0, zero_and c, zero_or 0) refl
distrib_below (suc k) a b c ha hb =
    let ih = distrib_below k (a / 2) (b / 2) (c / 2) (omega arith) (omega arith) in
    let h1 : bit_or a b / 2 ≡ bit_or (a / 2) (b / 2) = omega (arith, or_step a b) in
    let h2 : bit_and a c / 2 ≡ bit_and (a / 2) (c / 2) = omega (arith, and_step a c) in
    let h3 : bit_and b c / 2 ≡ bit_and (b / 2) (c / 2) = omega (arith, and_step b c) in
    rw (and_step (bit_or a b) c, or_step (bit_and a c) (bit_and b c), h1, h2, h3, ih)
      (omega (arith, or_step a b, and_step a c, and_step b c))

pub and-or : (a b c : ℕ) → bit_and (bit_or a b) c ≡ bit_or (bit_and a c) (bit_and b c)
and-or a b c = distrib_below (a + b) a b c (omega arith) (omega arith)

le_below : (k a b : ℕ) → a ≤ k → bit_and a b ≤ b
le_below k zero b h = omega (arith, zero_and b)
le_below zero (suc a) b h = absurd (omega arith)
le_below (suc k) (suc a) b h =
    omega (arith, and_step (suc a) b, le_below k (suc a / 2) (b / 2) (omega arith))

pub and_le : (a b : ℕ) → bit_and a b ≤ b
and_le a b = le_below a a b (omega arith)
