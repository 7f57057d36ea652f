-- ===== src/Prelude/Bits.antt =====
-- Single bits of machine words. The code reads, sets and clears a bit by masks; the laws of these
-- operations follow from the native operations' recursion on the digits.
use Prim.Native.Nat.{
  ℕ, zero, suc, ◌+◌, ◌-◌, ◌*◌, ◌/◌, ◌%◌, ◌^◌, ◌≤◌, ◌<◌, min, max, bit_and, bit_or, digits,
  bit_and-bitwise, bit_or-bitwise,
}
use mathlib.Core.Path.{◌≡◌, refl, ap}
use mathlib.Core.Bool.{Bool, true, false}
use native.Mathlib.Nat.{pow-suc, one-le-pow}
use native.Mathlib.Omega.{arith}
use rust_os.Prelude.Tests.{◌==◌, if◌then◌else◌}

-- `word & (1 << b) != 0`, `word | (1 << b)` and, at width `n`, `word & !(1 << b)`.
unfoldable pub test_bit : ℕ → ℕ → Bool
test_bit w b = if bit_and w (2 ^ b) == 0 then false else true

unfoldable pub set_bit : ℕ → ℕ → ℕ
set_bit w b = bit_or w (2 ^ b)

unfoldable pub clear_bit : ℕ → ℕ → ℕ → ℕ
clear_bit n w b = bit_and w (2 ^ n - 1 - 2 ^ b)

-- The native operations run on fuel; any two amounts that cover the first word agree.
more_fuel :
    (z : ℕ → ℕ) (f : ℕ → ℕ → ℕ) (k l a b : ℕ) → a ≤ k → a ≤ l → digits z f k a b ≡ digits z f l a b
more_fuel z f zero zero a b hk hl = refl
more_fuel z f zero (suc l) zero b hk hl = refl
more_fuel z f zero (suc l) (suc a) b hk hl = absurd (omega arith)
more_fuel z f (suc k) zero zero b hk hl = refl
more_fuel z f (suc k) zero (suc a) b hk hl = absurd (omega arith)
more_fuel z f (suc k) (suc l) zero b hk hl = refl
more_fuel z f (suc k) (suc l) (suc a) b hk hl =
    let half = more_fuel z f k l (suc a / 2) (b / 2) (omega arith) (omega arith) in rw half

pub and_step : (a b : ℕ) → bit_and a b ≡ bit_and (a / 2) (b / 2) * 2 + min (a % 2) (b % 2)
and_step zero b = simp bit_and-bitwise (omega arith)
and_step (suc a) b = omega (
  arith,
  bit_and-bitwise (suc a) b,
  bit_and-bitwise (suc a / 2) (b / 2),
  more_fuel (λ _. 0) min a (suc a / 2) (suc a / 2) (b / 2) (omega arith) (omega arith),
)

pub or_step : (a b : ℕ) → bit_or a b ≡ bit_or (a / 2) (b / 2) * 2 + max (a % 2) (b % 2)
or_step zero b = simp bit_or-bitwise (omega arith)
or_step (suc a) b = omega (
  arith,
  bit_or-bitwise (suc a) b,
  bit_or-bitwise (suc a / 2) (b / 2),
  more_fuel (λ y. y) max a (suc a / 2) (suc a / 2) (b / 2) (omega arith) (omega arith),
)

and_nothing_below : (k a : ℕ) → a ≤ k → bit_and a 0 ≡ 0
and_nothing_below k zero h = refl
and_nothing_below zero (suc a) h = absurd (omega arith)
and_nothing_below (suc k) (suc a) h =
    omega (arith, and_step (suc a) 0, and_nothing_below k (suc a / 2) (omega arith))

pub bit_and-zero : (a : ℕ) → bit_and a 0 ≡ 0
bit_and-zero a = and_nothing_below a a (omega arith)

or_nothing_below : (k a : ℕ) → a ≤ k → bit_or a 0 ≡ a
or_nothing_below k zero h = refl
or_nothing_below zero (suc a) h = absurd (omega arith)
or_nothing_below (suc k) (suc a) h =
    omega (arith, or_step (suc a) 0, or_nothing_below k (suc a / 2) (omega arith))

pub bit_or-zero : (a : ℕ) → bit_or a 0 ≡ a
bit_or-zero a = or_nothing_below a a (omega arith)

-- A mask of `n` ones keeps a word of `n` bits.
pub and_ones : (n a : ℕ) → a < 2 ^ n → bit_and a (2 ^ n - 1) ≡ a
and_ones zero a h = let e : a ≡ 0 = omega arith in rw e
and_ones (suc n) a h = omega (
  arith,
  pow-suc 2 n,
  one-le-pow n 2 (omega arith),
  and_step a (2 ^ suc n - 1),
  ap (bit_and (a / 2)) (half n),
  and_ones n (a / 2) (omega (arith, pow-suc 2 n)),
)
  where
    half : (k : ℕ) → (2 ^ suc k - 1) / 2 ≡ 2 ^ k - 1
    half k = omega (arith, pow-suc 2 k, one-le-pow k 2 (omega arith))

half_pow : (k : ℕ) → 2 ^ suc k / 2 ≡ 2 ^ k
half_pow k = omega (arith, pow-suc 2 k)

-- The recursions on the digits.
pub test_bit-zero : (w : ℕ) → test_bit w 0 ≡ (w % 2 == 1)
unfolding test_bit
test_bit-zero w = ground (arith, and_step w 1, bit_and-zero (w / 2))

pub test_bit-suc : (w b : ℕ) → test_bit w (suc b) ≡ test_bit (w / 2) b
unfolding test_bit
test_bit-suc w b =
    ground (arith, and_step w (2 ^ suc b), pow-suc 2 b, ap (bit_and (w / 2)) (half_pow b))

pub set_bit-zero : (w : ℕ) → set_bit w 0 ≡ w / 2 * 2 + 1
unfolding set_bit
set_bit-zero w = omega (arith, or_step w 1, bit_or-zero (w / 2))

pub set_bit-suc : (w b : ℕ) → set_bit w (suc b) ≡ set_bit (w / 2) b * 2 + w % 2
unfolding set_bit
set_bit-suc w b =
    omega (arith, or_step w (2 ^ suc b), pow-suc 2 b, ap (bit_or (w / 2)) (half_pow b))

pub clear_bit-zero : (n w : ℕ) → w < 2 ^ suc n → clear_bit (suc n) w 0 ≡ w / 2 * 2
unfolding clear_bit
clear_bit-zero n w h = omega (
  arith,
  pow-suc 2 n,
  one-le-pow n 2 (omega arith),
  and_step w (2 ^ suc n - 1 - 1),
  ap (bit_and (w / 2)) (half n),
  and_ones n (w / 2) (omega (arith, pow-suc 2 n)),
)
  where
    half : (k : ℕ) → (2 ^ suc k - 1 - 1) / 2 ≡ 2 ^ k - 1
    half k = omega (arith, pow-suc 2 k, one-le-pow k 2 (omega arith))

pub two_pow_lt : (b n : ℕ) → b < n → 2 ^ b < 2 ^ n
two_pow_lt b zero h = elim h [ ]
two_pow_lt zero (suc n) h = omega (arith, pow-suc 2 n, one-le-pow n 2 (omega arith))
two_pow_lt (suc b) (suc n) h = omega (arith, pow-suc 2 b, pow-suc 2 n, two_pow_lt b n (omega arith))

pub clear_bit-suc :
    (n w b : ℕ) → b < n → clear_bit (suc n) w (suc b) ≡ clear_bit n (w / 2) b * 2 + w % 2
unfolding clear_bit
clear_bit-suc n w b h = omega (
  arith,
  pow-suc 2 n,
  pow-suc 2 b,
  two_pow_lt b n h,
  and_step w (2 ^ suc n - 1 - 2 ^ suc b),
  ap (bit_and (w / 2)) half,
)
  where
    half : (2 ^ suc n - 1 - 2 ^ suc b) / 2 ≡ 2 ^ n - 1 - 2 ^ b
    half = omega (arith, pow-suc 2 n, pow-suc 2 b, two_pow_lt b n h)

-- What the three operations do to each other.
pub test_bit-set_bit :
    (w b c : ℕ) → test_bit (set_bit w b) c ≡ (if b == c then true else test_bit w c)
test_bit-set_bit w zero zero = rw test_bit-zero (ground (arith, set_bit-zero w))
test_bit-set_bit w zero (suc c) =
    rw (test_bit-suc (set_bit w 0) c, test_bit-suc w c) (ground (arith, step))
  where
    step : set_bit w 0 / 2 ≡ w / 2
    step = omega (arith, set_bit-zero w)
test_bit-set_bit w (suc b) zero =
    rw (test_bit-zero (set_bit w (suc b)), test_bit-zero w) (ground (arith, set_bit-suc w b))
test_bit-set_bit w (suc b) (suc c) =
    rw (test_bit-suc (set_bit w (suc b)) c, test_bit-suc w c)
      (ground (arith, step, test_bit-set_bit (w / 2) b c))
  where
    step : set_bit w (suc b) / 2 ≡ set_bit (w / 2) b
    step = omega (arith, set_bit-suc w b)

pub test_bit-clear_bit :
    (n w b c : ℕ)
    → w < 2 ^ n
    → b < n
    → test_bit (clear_bit n w b) c ≡ (if b == c then false else test_bit w c)
test_bit-clear_bit zero w b c hw hb = elim hb [ ]
test_bit-clear_bit (suc n) w zero zero hw hb =
    rw test_bit-zero (ground (arith, clear_bit-zero n w hw))
test_bit-clear_bit (suc n) w zero (suc c) hw hb =
    rw (test_bit-suc (clear_bit (suc n) w 0) c, test_bit-suc w c) (ground (arith, step))
  where
    step : clear_bit (suc n) w 0 / 2 ≡ w / 2
    step = omega (arith, clear_bit-zero n w hw)
test_bit-clear_bit (suc n) w (suc b) zero hw hb =
    rw (test_bit-zero (clear_bit (suc n) w (suc b)), test_bit-zero w)
      (ground (arith, clear_bit-suc n w b))
test_bit-clear_bit (suc n) w (suc b) (suc c) hw hb =
    rw (test_bit-suc (clear_bit (suc n) w (suc b)) c, test_bit-suc w c)
      (ground (arith, step, test_bit-clear_bit n (w / 2) b c (omega (arith, pow-suc 2 n))))
  where
    step : clear_bit (suc n) w (suc b) / 2 ≡ clear_bit n (w / 2) b
    step = omega (arith, clear_bit-suc n w b)

pub set_bit-lt : (n w b : ℕ) → w < 2 ^ n → b < n → set_bit w b < 2 ^ n
set_bit-lt zero w b hw hb = elim hb [ ]
set_bit-lt (suc n) w zero hw hb = omega (arith, set_bit-zero w, pow-suc 2 n)
set_bit-lt (suc n) w (suc b) hw hb = omega (
  arith,
  set_bit-suc w b,
  pow-suc 2 n,
  set_bit-lt n (w / 2) b (omega (arith, pow-suc 2 n)) (omega arith),
)

pub clear_bit-lt : (n w b : ℕ) → w < 2 ^ n → b < n → clear_bit n w b < 2 ^ n
clear_bit-lt zero w b hw hb = elim hb [ ]
clear_bit-lt (suc n) w zero hw hb = omega (arith, clear_bit-zero n w hw)
clear_bit-lt (suc n) w (suc b) hw hb = omega (
  arith,
  clear_bit-suc n w b (omega arith),
  pow-suc 2 n,
  clear_bit-lt n (w / 2) b (omega (arith, pow-suc 2 n)) (omega arith),
)

-- A word of ones.
pub test_bit_ones : (n b : ℕ) → b < n → test_bit (2 ^ n - 1) b ≡ true
test_bit_ones zero b h = elim h [ ]
test_bit_ones (suc n) zero h = rw test_bit-zero (ground (arith, pow-suc 2 n, one-le-pow n 2))
test_bit_ones (suc n) (suc b) h =
    let half : (2 ^ suc n - 1) / 2 ≡ 2 ^ n - 1 =
      omega (arith, pow-suc 2 n, one-le-pow n 2 (omega arith)) in
    rw (test_bit-suc (2 ^ suc n - 1) b, half) (test_bit_ones n b (omega arith))
