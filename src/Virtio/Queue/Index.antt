-- ===== src/Virtio/Queue/Index.antt =====
-- Indices that wrap at 2 ^ 16 agree with indices that do not, modulo a queue size.
use rust_os.Prelude.{
  ℕ, zero, suc, ◌+◌, ◌%◌, ◌^◌, ◌<◌, ◌≡◌, refl, ◌≢◌, Bool, true, ◌&&◌, arith, ℕ_discrete, ltb, ◌==◌,
  holds_below, holds_below-at,
}
use native.Mathlib.Nat.{mod-mod_of_dvd, div-add-mod, dvd_of_mod-eq-zero}
use rust_os.Virtio.Queue.{is_power_below, is_power_of_two}

is_power_below-pow : (k n : ℕ) → is_power_below k n ≡ true → (j : ℕ) × (j < k) × (n ≡ 2 ^ j)
unfolding is_power_below
is_power_below-pow zero n h = cc
is_power_below-pow (suc k) n h = elim (ℕ_discrete n (2 ^ k)) [
  | yes e ↦ (k, omega arith, e)
  | no ne ↦ let (j, lt, e) = is_power_below-pow k n (ground arith) in (j, omega arith, e)
]

abbrev power_test : ℕ → Bool
power_test j = (2 ^ 16 % 2 ^ j == 0) && (2 ^ j % 2 ^ 16 == 2 ^ j) && ltb 0 (2 ^ j)

powers_pass : holds_below 16 power_test ≡ true
unfolding holds_below
powers_pass = refl

-- The sixteen powers, checked one by one.
power_table : (j : ℕ) → j < 16 → (2 ^ 16 % 2 ^ j ≡ 0) × (2 ^ j % 2 ^ 16 ≡ 2 ^ j) × (0 < 2 ^ j)
power_table j h = ground (arith, holds_below-at 16 power_test j powers_pass h)

module _ (n : ℕ) (power : is_power_of_two n ≡ true) where
  power_facts : (2 ^ 16 % n ≡ 0) × (n % 2 ^ 16 ≡ n) × (0 < n)
  power_facts = let (j, lt, e) = is_power_below-pow 16 n power in rw e (power_table j lt)

  pub pos : 0 < n
  pos = power_facts.2

  pub fits : n % 2 ^ 16 ≡ n
  fits = power_facts.1

  pub wrap : (i : ℕ) → i % 2 ^ 16 % n ≡ i % n
  wrap i = mod-mod_of_dvd n i (dvd_of_mod-eq-zero n power_facts.0)

  -- Fewer than `n` steps apart, two indices fall into different slots.
  pub slots_differ : (c i j : ℕ) → i < j → j < n + i → (c + i) % n ≢ (c + j) % n
  slots_differ c i j lt near e = grind (arith, div-add-mod (c + i) n, div-add-mod (c + j) n)
