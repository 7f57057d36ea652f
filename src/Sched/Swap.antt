-- ===== src/Sched/Swap.antt =====
-- `task_swap_parameters`: who runs next, and what becomes of the queue and of the table.
pub mod Steps
pub mod Run
pub mod Switching
use rust_os.Prelude.{
  ℕ, ◌<◌, ◌≡◌, refl, sym, ◌∙◌, ◌≢◌, inl, inr, Bool, true, false, not, ◌&&◌, ◌||◌, Option, none,
  some, List, [], ◌∷◌, ◌++◌, arith, ltb, ◌==◌, if◌then◌else◌, Bool-cases, ret,
}
use mathlib.Core.Option
use rust_os.Sched.Task.{
  DesiredTaskState, ready_to_run, sleeping, killed, Task, Tasks, find, remove, update, is_killed,
  is_ready, top_addr,
}
use rust_os.Sched.Core.{
  Kernel, Switch, update_task, remove_killed, pop_ready, choose_next, swap_to, task_swap_parameters,
  default_time_slice,
}
use rust_os.Sched.Store.{
  count, Has, Present, Distinct, count-append, find-update, is_killed_at, is_ready_at,
}
use rust_os.Sched.Queue.{
  survivors, count-survivors, Removed, remove_killed_lem, NoneReady, Popped, idle, taken,
  pop_ready_lem,
}

-- Every queued task, the running one and the idle one exist. The queue has no task twice, and has
-- neither the running task nor the idle one.
pub record Valid (k : Kernel) : Type 0 where
  pub pending_present : Present k.tasks.tasks k.pending_tasks
  pub current_present : Has k.tasks.tasks k.current_task_id
  pub idle_present : Has k.tasks.tasks k.idle_task_id
  pub distinct : Distinct k.pending_tasks
  pub current_apart : count k.current_task_id k.pending_tasks ≡ 0
  pub idle_apart : count k.idle_task_id k.pending_tasks ≡ 0

abbrev pub live : Kernel → List ℕ
live k = survivors k.tasks.tasks k.pending_tasks

-- The previous task goes to the end of the queue, unless it is the idle one.
abbrev pub requeued : Kernel → List ℕ → List ℕ
requeued k q = if k.current_task_id == k.idle_task_id then q else q ++ k.current_task_id ∷ []

-- Which task is picked: the first ready one, or the idle one when none is ready; and what is queued.
pub data Picked (k : Kernel) (next : ℕ) (q : List ℕ) : Type 0 where
  first_ready :
      (before after : List ℕ)
      → live k ≡ before ++ next ∷ after
      → NoneReady k.tasks.tasks before
      → is_ready_at (find k.tasks.tasks next) ≡ true
      → q ≡ requeued k (after ++ before)
      → Picked k next q
  nobody_ready :
      NoneReady k.tasks.tasks (live k)
      → is_ready_at (find k.tasks.tasks k.current_task_id) ≡ false
      → next ≡ k.idle_task_id
      → q ≡ requeued k (live k)
      → Picked k next q

-- The switch and the state after it.
pub record Switched (k k' : Kernel) (s : Switch) : Type 0 where
  pub task : Task
  pub found : find k.tasks.tasks k'.current_task_id ≡ some task
  pub changes : k.current_task_id ≢ k'.current_task_id
  pub picked : Picked k k'.current_task_id k'.pending_tasks
  pub parameters : s ≡ record {
    prev = k.current_task_id;
    next_stack_ptr = task.rsp;
    next_page_table = task.page_table;
  }
  pub fresh_slice :
      find k'.tasks.tasks k'.current_task_id
      ≡ some (record task { remaining_slice = default_time_slice })
  pub kernel_stack_top : k'.top_of_kernel_stack ≡ top_addr task.kernel_stack
  pub interrupt_stack_top : k'.tss_rsp0 ≡ top_addr task.kernel_stack

-- The running task goes on: no other task is ready, and it is the idle task or ready itself.
pub record Stays (k k' : Kernel) : Type 0 where
  pub same_task : k'.current_task_id ≡ k.current_task_id
  pub same_queue : k'.pending_tasks ≡ live k
  pub nobody : NoneReady k.tasks.tasks (live k)
  pub may_go_on :
      ((k.current_task_id == k.idle_task_id) || is_ready_at (find k.tasks.tasks k.current_task_id))
      ≡ true

abbrev pub Outcome : Kernel → Kernel → Option Switch → Type 0
Outcome k k' none = Stays k k'
Outcome k k' (some s) = Switched k k' s

killed_not_ready : (s : DesiredTaskState) → is_killed s ≡ true → is_ready s ≡ false
killed_not_ready ready_to_run h = cc
killed_not_ready sleeping h = refl
killed_not_ready killed h = refl

ready_if_removed :
    (o : Option Task) (b : Bool)
    → is_ready_at (if is_killed_at o && b then none else o) ≡ is_ready_at o
ready_if_removed none false = refl
ready_if_removed none true = refl
ready_if_removed (some t) b = elim (Bool-cases (is_killed t.desired_state && b)) [
  | inl gone ↦
      let dead : is_killed t.desired_state ≡ true = ground arith in
      rw gone (sym (killed_not_ready t.desired_state dead))
  | inr kept ↦ rw kept
]

-- The table after the queued killed tasks are gone, as far as readiness shows.
ready-Removed :
    (ts us : List Task) (ids : List ℕ) (x : ℕ)
    → Removed ts us ids
    → is_ready_at (find us x) ≡ is_ready_at (find ts x)
ready-Removed ts us ids x left = rw (left x) (ready_if_removed (find ts x) (ltb 0 (count x ids)))

NoneReady-Removed :
    (ts us : List Task) (ids q : List ℕ) → Removed ts us ids → NoneReady us q → NoneReady ts q
NoneReady-Removed ts us ids q left nobody x h = sym (ready-Removed ts us ids x left) ∙ nobody x h

-- A task that is not queued keeps its entry.
kept-Removed :
    (ts us : List Task) (ids : List ℕ) (x : ℕ)
    → Removed ts us ids
    → count x ids ≡ 0
    → find us x ≡ find ts x
kept-Removed ts us ids x left out = left x ∙ ground (arith, out)

-- The survivors keep their entries too.
survivor-Removed :
    (ts us : List Task) (ids : List ℕ) (x : ℕ)
    → Removed ts us ids
    → 0 < count x (survivors ts ids)
    → find us x ≡ find ts x
survivor-Removed ts us ids x left h = left x ∙ ground (arith, count-survivors ts ids x)

-- The state that `swap_to` leaves when the next task is another one.
abbrev swapped : Kernel → ℕ → Task → Kernel
swapped k next t = record k {
  tasks = update_task k.tasks next (λ u. record u { remaining_slice = default_time_slice });
  pending_tasks = requeued k k.pending_tasks;
  current_task_id = next;
  top_of_kernel_stack = top_addr t.kernel_stack;
  tss_rsp0 = top_addr t.kernel_stack;
}

swap_to_lem :
    (k : Kernel) (next : ℕ) (p t : Task)
    → find k.tasks.tasks k.current_task_id ≡ some p
    → find k.tasks.tasks next ≡ some t
    → k.current_task_id ≢ next
    → swap_to k next
      ≡ ret (
        some (record {
          prev = k.current_task_id;
          next_stack_ptr = t.rsp;
          next_page_table = t.page_table;
        }),
        swapped k next t,
      )
unfolding swap_to
swap_to_lem k next p t at_prev at_next differ =
    let test : (k.current_task_id == next) ≡ false = ground arith in rw (at_prev, at_next, test)
