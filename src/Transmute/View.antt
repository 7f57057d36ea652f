-- ===== src/Transmute/View.antt =====
-- `TransmuteView`, by its buffer and the buffer's address: the cast is tried when the view is made.
use rust_os.Prelude.{ℕ, Option, List, Exec, expect}
use mathlib.Core.Option
use rust_os.Transmute.{Layout, try_cast_bytes_ref, try_cast_bytes_ref_mut}

module _ {T : Type 0} (layout : Layout T) where
  unfoldable pub new : ℕ → List ℕ → Option (List ℕ)
  new address buffer = Option.map (λ _. buffer) (try_cast_bytes_ref layout address buffer)

  unfoldable pub deref : ℕ → List ℕ → Exec T
  deref address buffer = expect (try_cast_bytes_ref layout address buffer)

  -- The buffer after an assignment through `deref_mut`.
  unfoldable pub deref_mut : ℕ → List ℕ → T → Exec (List ℕ)
  deref_mut address buffer value =
      expect (Option.map (λ r. r.1 value) (try_cast_bytes_ref_mut layout address buffer))
