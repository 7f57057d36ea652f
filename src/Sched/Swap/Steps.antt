-- ===== src/Sched/Swap/Steps.antt =====
-- The steps of `task_swap_parameters` on a valid state.
use rust_os.Prelude.{
  ℕ, ◌+◌, ◌≤◌, ◌≡◌, refl, ◌≢◌, not, ◌&&◌, some, List, [], ◌∷◌, arith, ℕ_discrete, ◌==◌,
  if◌then◌else◌,
}
use mathlib.Core.Option
use rust_os.Sched.Task.{Task, find, update}
use rust_os.Sched.Core.{Kernel, default_time_slice}
use rust_os.Sched.Store.{count, Has, Present, count-append, find-update}
use rust_os.Sched.Swap.{Valid, requeued, swapped}

abbrev pub refill : Task → Task
refill u = record u { remaining_slice = default_time_slice }

pub find-refill :
    (ts : List Task) (i x : ℕ)
    → find (update ts i refill) x ≡ (if i == x then Option.map refill (find ts x) else find ts x)
find-refill ts i x = find-update ts i x refill (λ t. refl)

Has-refill : (ts : List Task) (i x : ℕ) → Has ts x → Has (update ts i refill) x
Has-refill ts i x (t, at) = elim (ℕ_discrete i x) [
  | yes same ↦ (refill t, ground (arith, find-refill ts i x, at))
  | no ne ↦ (t, ground (arith, find-refill ts i x, at))
]

pub count-requeued :
    (k : Kernel) (q : List ℕ) (x : ℕ)
    → count x (requeued k q)
      ≡ count x q
        + (if x == k.current_task_id && not (k.current_task_id == k.idle_task_id) then 1 else 0)
count-requeued k q x = ground (arith, count-append x q (k.current_task_id ∷ []))

module _ (k : Kernel) (next : ℕ) (t : Task) (at_next : find k.tasks.tasks next ≡ some t)
    (current_present : Has k.tasks.tasks k.current_task_id)
    (idle_present : Has k.tasks.tasks k.idle_task_id)
    (present : Present k.tasks.tasks k.pending_tasks)
    (room : (x : ℕ) → count x k.pending_tasks + (if x == next then 1 else 0) ≤ 1)
    (current_apart : count k.current_task_id k.pending_tasks ≡ 0)
    (idle_apart : count k.idle_task_id k.pending_tasks ≡ 0)
    (differ : k.current_task_id ≢ next) where
  swapped-Present : Present (swapped k next t).tasks.tasks (swapped k next t).pending_tasks
  swapped-Present x h = elim (ℕ_discrete x k.current_task_id) [
    | yes same ↦ Has-refill k.tasks.tasks next x (rw same current_present)
    | no ne ↦
        Has-refill k.tasks.tasks next x
          (present x (ground (arith, count-requeued k k.pending_tasks x)))
  ]

  pub swapped-Valid : Valid (swapped k next t)
  swapped-Valid = record {
    pending_present = swapped-Present;
    current_present = Has-refill k.tasks.tasks next next (t, at_next);
    idle_present = Has-refill k.tasks.tasks next k.idle_task_id idle_present;
    distinct = λ x. elim (ℕ_discrete x k.current_task_id) [
      | yes same ↦
          let out : count x k.pending_tasks ≡ 0 = rw same current_apart in
          ground (arith, count-requeued k k.pending_tasks x)
      | no ne ↦ ground (arith, count-requeued k k.pending_tasks x, room x)
    ];
    current_apart = ground (arith, count-requeued k k.pending_tasks next, room next);
    idle_apart = ground (arith, count-requeued k k.pending_tasks k.idle_task_id);
  }
