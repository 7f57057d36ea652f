-- ===== src/Registers.antt =====
-- kernel/src/registers.rs: an array in device memory, `VolatileArrayRW`. A read or a write beyond
-- its length is a failed assertion.
use rust_os.Prelude.{
  ℕ, List, ltb, if◌then◌else◌, length, get_elem?, set, Exec, ret, panic, ◌>>=◌, expect,
}

module _ {ℓ} {A : Type ℓ} where
  abbrev pub read : List A → ℕ → Exec A
  read array index = expect (get_elem? array index)

  abbrev pub write : List A → ℕ → A → Exec (List A)
  write array index val = if ltb index (length array) then ret (set array index val) else panic

  abbrev pub modify_mut : List A → ℕ → (A → A) → Exec (List A)
  modify_mut array index f = read array index >>= λ val. write array index (f val)
