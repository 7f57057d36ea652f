-- ===== src/Sync/WaitCell.antt =====
-- kernel/src/sync/wait_cell.rs: a cell that tasks sleep on until its value is sent. Each call of
-- the scheduler, of a lock or of the cell is one step, so every interleaving of the waiting tasks
-- and the sender is a sequence of steps. A timer interrupt is a step too: `prepare_to_sleep` asks for
-- the scheduler, so that an interrupt before the task's own call of it switches the task out.
pub mod Invariant
pub mod Wakeups
pub mod LostWakeup
mod Tests
use rust_os.Prelude.{
  ℕ, ◌≡◌, Bool, true, false, not, ◌&&◌, Option, none, some, List, [], ◌∷◌, ◌++◌, ◌==◌,
  if◌then◌else◌, set,
}

-- Where a task is in `wait_sleep`; `scheduling` is inside `run_scheduler`.
pub data Waiter (A : Type 0) : Type 0 where
  outside : Waiter A
  looping : Waiter A
  registering : Waiter A
  checking : Waiter A
  scheduling : Waiter A
  awakening : A → Waiter A
  returned : A → Waiter A

-- Where the sender is in `send_all_consumers`; it holds the lock of the waiting tasks in `draining`.
pub data Sender (A : Type 0) : Type 0 where
  sending : A → Sender A
  locking : A → Sender A
  draining : A → Sender A
  sent : A → Sender A

-- `sleeping t`: the desired state of task `t` is `Sleeping`. `switched_out t`: an interrupt has run the
-- scheduler while it was, so that the task waits for the scheduler to choose it.
pub record WaitCell (A : Type 0) : Type 0 where
  pub cell : Option A
  pub waiting_tasks : List ℕ
  pub sleeping : ℕ → Bool
  pub switched_out : ℕ → Bool
  pub waiter : ℕ → Waiter A
  pub sender : Sender A

unfoldable pub update {ℓ} : {B : Type ℓ} → (ℕ → B) → ℕ → B → ℕ → B
update f t b u = if u == t then b else f u

abbrev pub is_locked : {A : Type 0} → Sender A → Bool
is_locked (sending a) = false
is_locked (locking a) = false
is_locked (draining a) = true
is_locked (sent a) = false

unfoldable pub goto : {A : Type 0} → ℕ → Waiter A → WaitCell A → WaitCell A
goto t w s = record s { waiter = update s.waiter t w }

unfoldable pub set_sleeping : {A : Type 0} → ℕ → Bool → WaitCell A → WaitCell A
set_sleeping t b s = record s { sleeping = update s.sleeping t b }

-- `self.cell.get_clone()`.
unfoldable pub after_check : {A : Type 0} → Option A → Waiter A
after_check none = scheduling
after_check (some a) = awakening a

-- The next step of task `t` in `wait_sleep`, if it can make one.
unfoldable pub waiter_step : {A : Type 0} → Waiter A → ℕ → WaitCell A → Option (WaitCell A)
waiter_step outside t s = some (goto t looping s)
waiter_step looping t s = some (goto t registering (set_sleeping t true s))
waiter_step registering t s =
    if is_locked s.sender
    then none
    else some (goto t checking (record s { waiting_tasks = s.waiting_tasks ++ (t ∷ []) }))
waiter_step checking t s = some (goto t (after_check s.cell) s)
waiter_step scheduling t s = if s.sleeping t then none else some (goto t looping s)
waiter_step (awakening a) t s = some (goto t (returned a) (set_sleeping t false s))
waiter_step (returned a) t s = none

-- The scheduler chooses a task that was switched out, which it does only when the task is awake.
unfoldable pub resume : {A : Type 0} → ℕ → WaitCell A → Option (WaitCell A)
resume t s =
    if s.sleeping t then none else some (record s { switched_out = update s.switched_out t false })

unfoldable pub wait_sleep : {A : Type 0} → ℕ → WaitCell A → Option (WaitCell A)
wait_sleep t s = if s.switched_out t then resume t s else waiter_step (s.waiter t) t s

-- The end of an interrupt's handler, `run_scheduler_if_needed`, on a running task that is set to
-- sleep: `NEEDS_RESCHEDULE` is set, and the task is switched out.
unfoldable pub interrupt : {A : Type 0} → ℕ → WaitCell A → Option (WaitCell A)
interrupt t s =
    if s.sleeping t && not (s.switched_out t)
    then some (record s { switched_out = update s.switched_out t true })
    else none

-- `self.cell.set(val)`, which panics on a cell that is set.
unfoldable pub set_cell : {A : Type 0} → A → Option A → WaitCell A → Option (WaitCell A)
set_cell a none s = some (record s { cell = some a; sender = locking a })
set_cell a (some b) s = none

unfoldable pub drain_step : {A : Type 0} → A → List ℕ → WaitCell A → WaitCell A
drain_step a [] s = record s { sender = sent a }
drain_step a (t ∷ ts) s = set_sleeping t false (record s { waiting_tasks = ts })

unfoldable pub sender_step : {A : Type 0} → Sender A → WaitCell A → Option (WaitCell A)
sender_step (sending a) s = set_cell a s.cell s
sender_step (locking a) s = some (record s { sender = draining a })
sender_step (draining a) s = some (drain_step a s.waiting_tasks s)
sender_step (sent a) s = none

unfoldable pub send_all_consumers : {A : Type 0} → WaitCell A → Option (WaitCell A)
send_all_consumers s = sender_step s.sender s

-- A new cell, all tasks before their call, and the value to be sent.
unfoldable pub new_cell : {A : Type 0} → A → WaitCell A
new_cell a = record {
  cell = none;
  waiting_tasks = [];
  sleeping = λ t. false;
  switched_out = λ t. false;
  waiter = λ t. outside;
  sender = sending a;
}

-- The steps, of any tasks in any order.
pub data Reach {A : Type 0} (start : WaitCell A) : WaitCell A → Type 0 where
  here : Reach start start
  waits : {s s' : WaitCell A} (t : ℕ) → Reach start s → wait_sleep t s ≡ some s' → Reach start s'
  interrupts :
      {s s' : WaitCell A} (t : ℕ) → Reach start s → interrupt t s ≡ some s' → Reach start s'
  sends : {s s' : WaitCell A} → Reach start s → send_all_consumers s ≡ some s' → Reach start s'
