-- ===== src/Sync.antt =====
-- kernel/src/sync/once_cell.rs: a cell that is written once. The atomic flag and the message are the
-- fields of the state; each operation is one step.
pub mod WaitCell
pub mod Mutex
pub mod OnceChannel
use rust_os.Prelude.{
  ◌≡◌, refl, Bool, true, false, not, Option, none, some, if◌then◌else◌, set, Exec, ret, panic,
  assert, ◌>>=◌, ◌>>◌,
}

pub record OnceCell (T : Type 0) : Type 0 where
  pub message : Option T
  pub ready : Bool

abbrev pub empty_cell : (T : Type 0) → OnceCell T
empty_cell T = record { message = none; ready = false }

module _ {T : Type 0} where
  unfoldable pub set_message : OnceCell T → T → Exec (OnceCell T)
  set_message c message = do
    let old = c.ready
    assert (not old)
    ret (record { message = some message; ready = true })

  -- The message, if it is there, and the cell after it is taken.
  unfoldable pub get_once : OnceCell T → Option T × OnceCell T
  get_once c =
      if c.ready
      then (c.message, record { message = none; ready = false })
      else (none, record c { ready = false })

  unfoldable pub get_clone : OnceCell T → Option T
  get_clone c = if c.ready then c.message else none

  -- A message that is set in a new cell is read any number of times, a second one is refused with a
  -- panic, and it is taken once: after that the cell is empty again.
  pub get_once-set_message :
      (m n : T)
      → (c : OnceCell T) × (set_message (empty_cell T) m ≡ ret c)
        × (get_clone c ≡ some m)
        × (set_message c n ≡ panic)
        × (get_once c ≡ (some m, empty_cell T))
        × (get_once (empty_cell T) ≡ (none, empty_cell T))
  unfolding set_message get_once get_clone
  get_once-set_message m n =
      (record { message = some m; ready = true }, refl, refl, refl, refl, refl)
