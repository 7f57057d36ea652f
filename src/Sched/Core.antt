-- ===== src/Sched/Core.antt =====
-- kernel/src/sched/schedcore.rs: the run queue and the scheduler of one processor. The processor's
-- variables are fields of the state; locks are held for the whole of an operation. Logging is left
-- out.
use rust_os.Prelude.{
  ℕ, ◌-◌, Bool, true, false, not, ◌&&◌, ◌||◌, Option, none, some, List, [], ◌∷◌, ◌++◌, ltb, ◌==◌,
  if◌then◌else◌, Exec, ret, panic, ◌>>=◌,
}
use rust_os.Sched.Task.{
  DesiredTaskState, ready_to_run, sleeping, is_ready, is_killed, Task, Tasks, update,
  get_task_assert, delete_task, top_addr, new_task,
}

-- `i64`.
pub data ℤ : Type 0 where
  pos : ℕ → ℤ
  negsuc : ℕ → ℤ

pub record Kernel : Type 0 where
  pub tasks : Tasks
  pub pending_tasks : List ℕ
  pub current_task_id : ℕ
  pub idle_task_id : ℕ
  pub needs_reschedule : ℕ
  pub preempt_count : ℤ
  pub top_of_kernel_stack : ℕ
  pub tss_rsp0 : ℕ

-- A write to a field of a task.
abbrev pub update_task : Tasks → ℕ → (Task → Task) → Tasks
update_task ts id f = record ts { tasks = update ts.tasks id f }

-- The loop of `remove_killed_pending_tasks`: what remains, and the table.
unfoldable pub remove_killed : List ℕ → Tasks → Exec (List ℕ × Tasks)
remove_killed [] ts = ret ([], ts)
remove_killed (id ∷ ids) ts = do
  task ← get_task_assert ts id
  ts' ← if is_killed task.desired_state then delete_task ts id else ret ts
  (remaining, ts'') ← remove_killed ids ts'
  ret (if is_killed task.desired_state then remaining else id ∷ remaining, ts'')

-- The loop of `pop_next_ready_pending_task`, with the tasks that are still pending and those that
-- were found not ready.
unfoldable pub pop_ready : Tasks → List ℕ → List ℕ → Exec (Option ℕ × List ℕ)
pop_ready ts [] non_ready = ret (none, non_ready)
pop_ready ts (id ∷ ids) non_ready = do
  task ← get_task_assert ts id
  let rest = pop_ready ts ids (non_ready ++ id ∷ [])
  if is_ready task.desired_state then ret (some id, ids ++ non_ready) else rest

-- The next task, or `none` when there is no switch.
unfoldable pub choose_next : Option ℕ → ℕ → ℕ → DesiredTaskState → Option ℕ
choose_next (some id) idle prev prev_state = some id
choose_next none idle prev prev_state =
    if prev == idle || is_ready prev_state then none else some idle

abbrev pub default_time_slice : ℕ
default_time_slice = 100

-- The parameters of `switch_to_task`: the task whose stack pointer is stored, the next stack pointer
-- and the next page table.
pub record Switch : Type 0 where
  pub prev : ℕ
  pub next_stack_ptr : ℕ
  pub next_page_table : ℕ

-- `task_swap_parameters` once the next task is known.
unfoldable pub swap_to : Kernel → ℕ → Exec (Option Switch × Kernel)
swap_to k next = do
  let prev = k.current_task_id
  let pending = if prev == k.idle_task_id then k.pending_tasks else k.pending_tasks ++ prev ∷ []
  prev_task ← get_task_assert k.tasks prev
  next_task ← get_task_assert k.tasks next
  let ts = update_task k.tasks next (λ t. record t { remaining_slice = default_time_slice })
  let k' = record k { tasks = ts; pending_tasks = pending; current_task_id = next }
  ret (
      if prev == next then (none, k') else (
        some (record {
          prev = prev;
          next_stack_ptr = next_task.rsp;
          next_page_table = next_task.page_table;
        }),
        record k' {
          top_of_kernel_stack = top_addr next_task.kernel_stack;
          tss_rsp0 = top_addr next_task.kernel_stack;
        },
      ))

-- The early return of `task_swap_parameters`, or the swap.
abbrev pub swap_chosen : Kernel → Option ℕ → Exec (Option Switch × Kernel)
swap_chosen k none = ret (none, k)
swap_chosen k (some next) = swap_to k next

unfoldable pub task_swap_parameters : Kernel → Exec (Option Switch × Kernel)
task_swap_parameters k = do
  (remaining, ts) ← remove_killed k.pending_tasks k.tasks
  prev_task ← get_task_assert ts k.current_task_id
  (popped, pending) ← pop_ready ts remaining []
  let k' = record k { tasks = ts; pending_tasks = pending }
  swap_chosen k' (choose_next popped k.idle_task_id k.current_task_id prev_task.desired_state)

-- `assert!(preempt_count >= 0)`, then `preempt_count > 0`.
abbrev pub is_preempt_disabled : ℤ → Exec Bool
is_preempt_disabled (pos n) = ret (ltb 0 n)
is_preempt_disabled (negsuc n) = panic

unfoldable pub check_current_task_needs_preemption : Kernel → Exec Bool
check_current_task_needs_preemption k = do
  task ← get_task_assert k.tasks k.current_task_id
  is_disabled ← is_preempt_disabled k.preempt_count
  let is_idle = task.id == k.idle_task_id
  let is_expired = task.remaining_slice == 0
  ret (not is_disabled && not (not is_idle && is_ready task.desired_state && not is_expired))

-- The switch that `run_scheduler` performs, if any.
unfoldable pub run_scheduler : Kernel → Exec (Option Switch × Kernel)
run_scheduler k = do
  let k' = record k { needs_reschedule = 0 }
  needs ← check_current_task_needs_preemption k'
  if needs then task_swap_parameters k' else ret (none, k')

unfoldable pub run_scheduler_if_needed : Kernel → Exec (Option Switch × Kernel)
run_scheduler_if_needed k = elim (ltb 0 k.needs_reschedule) [
  | true ↦ run_scheduler k
  | false ↦ ret (none, k)
]

-- The subtraction saturates at zero.
unfoldable pub scheduler_tick : Kernel → ℕ → Exec Kernel
scheduler_tick k time_between_ticks = do
  task ← get_task_assert k.tasks k.current_task_id
  let slice = task.remaining_slice - time_between_ticks
  let ts = update_task k.tasks k.current_task_id (λ t. record t { remaining_slice = slice })
  ret (record k { tasks = ts; needs_reschedule = if slice == 0 then 1 else k.needs_reschedule })

abbrev pub with_state : DesiredTaskState → Task → Task
with_state s t = record t { desired_state = s }

unfoldable pub prepare_to_sleep : Kernel → Exec (ℕ × Kernel)
prepare_to_sleep k = do
  task ← get_task_assert k.tasks k.current_task_id
  ret (
    task.id,
    record k {
      needs_reschedule = 1;
      tasks = update_task k.tasks k.current_task_id (with_state sleeping);
    },
  )

unfoldable pub awaken_task : Kernel → ℕ → Exec Kernel
awaken_task k id = do
  task ← get_task_assert k.tasks id
  ret (record k {
    tasks = update_task k.tasks id (with_state ready_to_run);
    needs_reschedule = if is_ready task.desired_state then k.needs_reschedule else 1;
  })

-- `schedcore::new_task`: the task is created, and pends.
unfoldable pub spawn : Kernel → ℕ → ℕ → Exec (ℕ × Kernel)
spawn k kernel_stack page_table = do
  (id, ts) ← new_task k.tasks kernel_stack page_table
  ret (id, record k { tasks = ts; pending_tasks = k.pending_tasks ++ id ∷ [] })
