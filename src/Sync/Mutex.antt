-- ===== src/Sync/Mutex.antt =====
-- kernel/src/sync/mutex.rs: a mutex whose callers sleep while they wait. Each call of the scheduler
-- and of a spin lock is one step, so every interleaving of the tasks is a sequence of steps.
pub mod Exclusion
mod Tests
use rust_os.Prelude.{
  ℕ, ◌≡◌, Bool, true, false, Option, none, some, List, [], ◌∷◌, ◌++◌, if◌then◌else◌,
}
use rust_os.Sync.WaitCell.{update}

-- Where a task is: in `lock`, with the guard, and in the guard's `drop`, which wakes the waiting tasks
-- and then, with the guard's field, lets the inner lock go.
pub data Place : Type 0 where
  outside : Place
  looping : Place
  registering : Place
  trying : Place
  scheduling : Place
  awakening : Place
  holding : Place
  waking : Place
  unlocking : Place

-- `inner` and `list_locked`: the two spin locks are held; `sleeping t`: the desired state of task `t`
-- is `Sleeping`.
pub record Mutex : Type 0 where
  pub inner : Bool
  pub list_locked : Bool
  pub waiting_tasks : List ℕ
  pub sleeping : ℕ → Bool
  pub place : ℕ → Place

unfoldable pub goto : ℕ → Place → Mutex → Mutex
goto t w s = record s { place = update s.place t w }

unfoldable pub set_sleeping : ℕ → Bool → Mutex → Mutex
set_sleeping t b s = record s { sleeping = update s.sleeping t b }

-- `self.inner.try_lock_allow_preempt()`.
unfoldable pub try_lock : ℕ → Mutex → Mutex
try_lock t s = if s.inner then goto t scheduling s else goto t awakening (record s { inner = true })

-- A round of `wake_tasks`, with the list's lock held.
unfoldable pub wake_tasks : ℕ → List ℕ → Mutex → Mutex
wake_tasks t [] s = goto t unlocking (record s { list_locked = false })
wake_tasks t (u ∷ us) s = set_sleeping u false (record s { waiting_tasks = us })

-- The next step of task `t`, if it can make one.
unfoldable pub task_step : Place → ℕ → Mutex → Option Mutex
task_step outside t s = some (goto t looping s)
task_step looping t s = some (goto t registering (set_sleeping t true s))
task_step registering t s =
    if s.list_locked
    then none
    else some (goto t trying (record s { waiting_tasks = s.waiting_tasks ++ (t ∷ []) }))
task_step trying t s = some (try_lock t s)
task_step scheduling t s = if s.sleeping t then none else some (goto t looping s)
task_step awakening t s = some (goto t holding (set_sleeping t false s))
task_step holding t s =
    if s.list_locked then none else some (goto t waking (record s { list_locked = true }))
task_step waking t s = some (wake_tasks t s.waiting_tasks s)
task_step unlocking t s = some (goto t outside (record s { inner = false }))

unfoldable pub step : ℕ → Mutex → Option Mutex
step t s = task_step (s.place t) t s

unfoldable pub new_mutex : Mutex
new_mutex = record {
  inner = false;
  list_locked = false;
  waiting_tasks = [];
  sleeping = λ t. false;
  place = λ t. outside;
}

pub data Reach (start : Mutex) : Mutex → Type 0 where
  here : Reach start start
  then_step : {s s' : Mutex} (t : ℕ) → Reach start s → step t s ≡ some s' → Reach start s'
