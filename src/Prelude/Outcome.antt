-- ===== src/Prelude/Outcome.antt =====
-- The outcome of Rust code that may panic: a failed `assert!`, an index out of range, an
-- `unwrap` or `expect` of nothing, an arithmetic overflow with the debug profile's checks.
use Prim.Native.Nat.{ℕ, ◌+◌, ◌/◌, ◌%◌, ◌^◌}
use rust_os.Prelude.Tests.{ltb, ◌==◌, if◌then◌else◌}
use mathlib.Core.Path.{◌≡◌, refl}
use mathlib.Core.Logic.{◌⊎◌, inl, inr}
use mathlib.Core.Bool.{Bool, true, false}
use mathlib.Core.Option.{Option, none, some}

pub data Exec {ℓ} (A : Type ℓ) : Type ℓ where
  ret : A → Exec A
  panic : Exec A

infixl 5 ◌>>=◌ ◌>>◌
abbrev pub ◌>>=◌ {ℓ κ} : {A : Type ℓ} {B : Type κ} → Exec A → (A → Exec B) → Exec B
ret a >>= f = f a
panic >>= f = panic

abbrev pub ◌>>◌ {ℓ} : {B : Type ℓ} → Exec (Unit {0}) → Exec B → Exec B
m >> k = m >>= λ _. k

abbrev pub assert : Bool → Exec (Unit {0})
assert true = ret tt
assert false = panic

-- Rust's `Result`.
pub data Result {ℓ κ} (A : Type ℓ) (E : Type κ) : Type (ℓ ⊔ κ) where
  ok : A → Result A E
  err : E → Result A E

-- `expect`, `unwrap` and an indexed read.
abbrev pub expect {ℓ} : {A : Type ℓ} → Option A → Exec A
expect none = panic
expect (some a) = ret a

-- `usize` and `u64` arithmetic with the overflow checks of the debug profile; `a / 0` and `a % 0`
-- always panic.
abbrev pub add_u64 : ℕ → ℕ → Exec ℕ
add_u64 a b = if ltb (a + b) (2 ^ 64) then ret (a + b) else panic

abbrev pub rem_u64 : ℕ → ℕ → Exec ℕ
rem_u64 a b = if b == 0 then panic else ret (a % b)

-- `a.div_ceil(b)` for `b ≢ 0`.
abbrev pub div_ceil : ℕ → ℕ → ℕ
div_ceil a b = if a % b == 0 then a / b else a / b + 1

pub >>=-eq-ret {ℓ κ} :
    {A : Type ℓ} {B : Type κ} (m : Exec A) (f : A → Exec B) {b : B}
    → (m >>= f) ≡ ret b
    → (a : A) × (m ≡ ret a) × (f a ≡ ret b)
>>=-eq-ret (ret a) f h = (a, refl, h)
>>=-eq-ret panic f h = cc

pub Exec-cases {ℓ} : {A : Type ℓ} (m : Exec A) → (m ≡ panic) ⊎ ((a : A) × (m ≡ ret a))
Exec-cases panic = inl refl
Exec-cases (ret a) = inr (a, refl)
