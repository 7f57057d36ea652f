-- ===== src/Sched/Invariant.antt =====
-- Every operation of the scheduler keeps the state valid, in any order of operations.
use rust_os.Prelude.{
  ℕ, ◌-◌, ◌≤◌, ◌<◌, ◌≡◌, refl, inl, inr, Bool, not, ◌&&◌, Option, none, some, List, arith,
  ℕ_discrete, ltb, ◌==◌, if◌then◌else◌, Bool-cases, ret,
}
use rust_os.Sched.Task.{Task, find, update, is_ready, sleeping, ready_to_run}
use rust_os.Sched.Core.{
  Kernel, Switch, pos, update_task, with_state, check_current_task_needs_preemption, run_scheduler,
  scheduler_tick, prepare_to_sleep, awaken_task,
}
use rust_os.Sched.Store.{Has, find-update}
use rust_os.Sched.Swap.{Valid}
use rust_os.Sched.Swap.Switching.{task_swap_parameters_lem}

Has-update :
    (ts : List Task) (i x : ℕ) (f : Task → Task)
    → ((t : Task) → (f t).id ≡ t.id)
    → Has ts x
    → Has (update ts i f) x
Has-update ts i x f keeps (t, at) = elim (ℕ_discrete i x) [
  | yes same ↦ (f t, ground (arith, find-update ts i x f keeps, at))
  | no ne ↦ (t, ground (arith, find-update ts i x f keeps, at))
]

-- Writing a field of a task, and the reschedule flag.
update-Valid :
    (k : Kernel) (i n : ℕ) (f : Task → Task)
    → ((t : Task) → (f t).id ≡ t.id)
    → Valid k
    → Valid (record k { tasks = update_task k.tasks i f; needs_reschedule = n })
update-Valid k i n f keeps v = record {
  pending_present = λ x h. Has-update k.tasks.tasks i x f keeps (v.pending_present x h);
  current_present = Has-update k.tasks.tasks i k.current_task_id f keeps v.current_present;
  idle_present = Has-update k.tasks.tasks i k.idle_task_id f keeps v.idle_present;
  distinct = v.distinct;
  current_apart = v.current_apart;
  idle_apart = v.idle_apart;
}

flagged-Valid : (k : Kernel) (n : ℕ) → Valid k → Valid (record k { needs_reschedule = n })
flagged-Valid k n v = record {
  pending_present = v.pending_present;
  current_present = v.current_present;
  idle_present = v.idle_present;
  distinct = v.distinct;
  current_apart = v.current_apart;
  idle_apart = v.idle_apart;
}

-- The tick takes its time off the running task's slice, and asks for the scheduler at zero.
pub scheduler_tick_lem :
    (k : Kernel) (d : ℕ) (t : Task)
    → Valid k
    → find k.tasks.tasks k.current_task_id ≡ some t
    → (k' : Kernel) × (scheduler_tick k d ≡ ret k')
      × Valid k'
      × (find k'.tasks.tasks k.current_task_id
          ≡ some (record t { remaining_slice = t.remaining_slice - d }))
      × (t.remaining_slice ≤ d → k'.needs_reschedule ≡ 1)
unfolding scheduler_tick
scheduler_tick_lem k d t v at =
    let slice = t.remaining_slice - d in
    let f : Task → Task = λ u. record u { remaining_slice = slice } in
    let n = if slice == 0 then 1 else k.needs_reschedule in
    (
      record k { tasks = update_task k.tasks k.current_task_id f; needs_reschedule = n },
      rw at,
      update-Valid k k.current_task_id n f (λ u. refl) v,
      ground
          (arith, find-update k.tasks.tasks k.current_task_id k.current_task_id f (λ u. refl), at),
      λ h. ground arith,
    )

-- A task that prepares to sleep and is awakened by another before the scheduler runs is ready again.
pub awaken_task-prepare_to_sleep :
    (k : Kernel) (t : Task)
    → Valid k
    → find k.tasks.tasks k.current_task_id ≡ some t
    → (k' k'' : Kernel) × (prepare_to_sleep k ≡ ret (t.id, k'))
      × Valid k'
      × (find k'.tasks.tasks k.current_task_id ≡ some (with_state sleeping t))
      × (awaken_task k' k.current_task_id ≡ ret k'')
      × Valid k''
      × (find k''.tasks.tasks k.current_task_id ≡ some (with_state ready_to_run t))
unfolding prepare_to_sleep awaken_task
awaken_task-prepare_to_sleep k t v at =
    let id = k.current_task_id in
    let ts = update_task k.tasks id (with_state sleeping) in
    let us = update_task ts id (with_state ready_to_run) in
    let slept : find ts.tasks id ≡ some (with_state sleeping t) =
      ground (arith, find-update k.tasks.tasks id id (with_state sleeping) (λ u. refl), at) in
    let woke : find us.tasks id ≡ some (with_state ready_to_run t) =
      ground (arith, find-update ts.tasks id id (with_state ready_to_run) (λ u. refl), slept) in
    let good = update-Valid k id 1 (with_state sleeping) (λ u. refl) v in
    (
      record k { tasks = ts; needs_reschedule = 1 },
      record k { tasks = us; needs_reschedule = 1 },
      rw at,
      good,
      slept,
      rw slept,
      update-Valid (record k { tasks = ts; needs_reschedule = 1 }) id 1 (with_state ready_to_run)
          (λ u. refl) good,
      woke,
    )

abbrev wants_switch : Kernel → ℕ → Task → Bool
wants_switch k n t =
    not (ltb 0 n)
    && not
        (not (t.id == k.idle_task_id) && is_ready t.desired_state && not (t.remaining_slice == 0))

check_lem :
    (k : Kernel) (n : ℕ) (t : Task)
    → find k.tasks.tasks k.current_task_id ≡ some t
    → k.preempt_count ≡ pos n
    → check_current_task_needs_preemption k ≡ ret (wants_switch k n t)
unfolding check_current_task_needs_preemption
check_lem k n t at count = rw (at, count)

-- With a preemption count that is not negative, `run_scheduler` never panics on a valid state, and
-- leaves a valid state. While preemption is disabled it switches to no other task.
pub run_scheduler_lem :
    (k : Kernel) (n : ℕ)
    → Valid k
    → k.preempt_count ≡ pos n
    → (o : Option Switch) × (k' : Kernel) × (run_scheduler k ≡ ret (o, k'))
      × Valid k'
      × (0 < n → (o ≡ none) × (k'.current_task_id ≡ k.current_task_id))
unfolding run_scheduler
run_scheduler_lem k n v count =
    let (t, at) = v.current_present in
    let k0 : Kernel = record k { needs_reschedule = 0 } in
    let checked = check_lem k0 n t at count in
    let v0 = flagged-Valid k 0 v in
    elim (Bool-cases (wants_switch k n t)) [
      | inl wanted ↦
          let s = task_swap_parameters_lem k0 v0 in
          (
            s.switch,
            s.after,
            rw (checked, wanted) s.run,
            s.valid,
            λ h. absurd (ground (arith, wanted)),
          )
      | inr unwanted ↦ (none, k0, rw (checked, unwanted), v0, λ h. (refl, refl))
    ]
