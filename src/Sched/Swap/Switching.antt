-- ===== src/Sched/Swap/Switching.antt =====
-- The outcome of `task_swap_parameters`.
use rust_os.Prelude.{
  ℕ, ◌≡◌, refl, sym, ap, subst, ◌∙◌, ◌≢◌, inl, inr, true, false, ◌||◌, Option, none, some, List, [],
  ◌∷◌, ◌++◌, arith, ◌==◌, Bool-cases, ret,
}
use mathlib.Core.Option
use rust_os.Sched.Task.{Task, Tasks, find, is_ready}
use rust_os.Sched.Core.{
  Kernel, Switch, remove_killed, pop_ready, choose_next, swap_to, task_swap_parameters,
}
use rust_os.Sched.Store.{count-append, is_ready_at}
use rust_os.Sched.Queue.{Removed, remove_killed_lem, NoneReady, Popped, idle, taken, pop_ready_lem}
use rust_os.Sched.Swap.{Valid, live, nobody_ready, Outcome, swapped, swap_to_lem, NoneReady-Removed}
use rust_os.Sched.Swap.Steps.{refill, find-refill, swapped-Valid}
use rust_os.Sched.Swap.Run.{
  Swept, live-Present, current_there, idle_there, current_kept, idle_kept, stays-Valid,
  Swept-swapped, taken-Valid, taken-Switched,
}

-- A valid state is swapped: a result, and what is known of it.
pub record Swapped (k : Kernel) : Type 0 where
  pub switch : Option Switch
  pub after : Kernel
  pub run : task_swap_parameters k ≡ ret (switch, after)
  pub valid : Valid after
  pub outcome : Outcome k after switch
  pub swept : Swept k after

module _ (k : Kernel) (us : Tasks) (o : Option ℕ) (q : List ℕ) (p : Task)
    (removed : remove_killed k.pending_tasks k.tasks ≡ ret (live k, us))
    (at_current : find us.tasks k.current_task_id ≡ some p)
    (popped : pop_ready us (live k) [] ≡ ret (o, q)) where
  run_stays :
      choose_next o k.idle_task_id k.current_task_id p.desired_state ≡ none
      → task_swap_parameters k ≡ ret (none, record k { tasks = us; pending_tasks = q })
  unfolding task_swap_parameters
  run_stays choice = rw (removed, at_current, popped, choice)

  run_switches :
      (next : ℕ)
      → choose_next o k.idle_task_id k.current_task_id p.desired_state ≡ some next
      → task_swap_parameters k ≡ swap_to (record k { tasks = us; pending_tasks = q }) next
  unfolding task_swap_parameters
  run_switches next choice = rw (removed, at_current, popped, choice)

module _ (k : Kernel) (v : Valid k) (us : Tasks)
    (removed : remove_killed k.pending_tasks k.tasks ≡ ret (live k, us))
    (left : Removed k.tasks.tasks us.tasks k.pending_tasks) where
  swap_taken :
      (before after : List ℕ) (id : ℕ)
      → live k ≡ before ++ id ∷ after
      → NoneReady us.tasks before
      → is_ready_at (find us.tasks id) ≡ true
      → pop_ready us (live k) [] ≡ ret (some id, after ++ before)
      → Swapped k
  unfolding choose_next
  swap_taken before after id parts none_before ready popped =
      let (p, at) = current_there k v us left in
      let (t, at_id) =
        live-Present k v us left id
          (rw parts (ground (arith, count-append id before (id ∷ after)))) in
      let switched = taken-Switched k v us left before after id t parts at_id none_before ready in
      record {
        switch = some (record {
          prev = k.current_task_id;
          next_stack_ptr = t.rsp;
          next_page_table = t.page_table;
        });
        after = swapped (record k { tasks = us; pending_tasks = after ++ before }) id t;
        run =
            run_switches k us (some id) (after ++ before) p removed at popped id refl
            ∙ swap_to_lem (record k { tasks = us; pending_tasks = after ++ before }) id p t at at_id
                switched.changes;
        valid = taken-Valid k v us left before after id t parts at_id;
        outcome = switched;
        swept = Swept-swapped k v us left (after ++ before) id t;
      }

  swap_stays :
      pop_ready us (live k) [] ≡ ret (none, live k)
      → NoneReady us.tasks (live k)
      → ((k.current_task_id == k.idle_task_id)
          || is_ready_at (find k.tasks.tasks k.current_task_id))
        ≡ true
      → Swapped k
  unfolding choose_next
  swap_stays popped nobody goes_on =
      let (p, at) = current_there k v us left in
      let kept = sym (current_kept k v us left) ∙ at in
      let goes : ((k.current_task_id == k.idle_task_id) || is_ready p.desired_state) ≡ true =
        subst (λ o. ((k.current_task_id == k.idle_task_id) || is_ready_at o) ≡ true) kept goes_on in
      record {
        switch = none;
        after = record k { tasks = us; pending_tasks = live k };
        run = run_stays k us none (live k) p removed at popped (rw goes);
        valid = stays-Valid k v us left;
        outcome = record {
          same_task = refl;
          same_queue = refl;
          nobody = NoneReady-Removed k.tasks.tasks us.tasks k.pending_tasks (live k) left nobody;
          may_go_on = goes_on;
        };
        swept = λ x. ap (Option.map refill) (left x);
      }

  swap_idle :
      pop_ready us (live k) [] ≡ ret (none, live k)
      → NoneReady us.tasks (live k)
      → ((k.current_task_id == k.idle_task_id)
          || is_ready_at (find k.tasks.tasks k.current_task_id))
        ≡ false
      → Swapped k
  unfolding choose_next
  swap_idle popped nobody waits =
      let (p, at) = current_there k v us left in
      let (t, at_idle) = idle_there k v us left in
      let kept = sym (current_kept k v us left) ∙ at in
      let stops : ((k.current_task_id == k.idle_task_id) || is_ready p.desired_state) ≡ false =
        subst (λ o. ((k.current_task_id == k.idle_task_id) || is_ready_at o) ≡ false) kept waits in
      let differ : k.current_task_id ≢ k.idle_task_id = ground (arith, waits) in
      let good = stays-Valid k v us left in
      let k1 = record k { tasks = us; pending_tasks = live k } in
      record {
        switch = some (record {
          prev = k.current_task_id;
          next_stack_ptr = t.rsp;
          next_page_table = t.page_table;
        });
        after = swapped k1 k.idle_task_id t;
        run =
            run_switches k us none (live k) p removed at popped k.idle_task_id (rw stops)
            ∙ swap_to_lem k1 k.idle_task_id p t at at_idle differ;
        valid =
            swapped-Valid k1 k.idle_task_id t at_idle (p, at) (t, at_idle) good.pending_present
              (λ x. ground (arith, good.distinct x, good.idle_apart)) good.current_apart
              good.idle_apart differ;
        outcome = record {
          task = t;
          found = sym (idle_kept k v us left) ∙ at_idle;
          changes = differ;
          picked =
              nobody_ready
                (NoneReady-Removed k.tasks.tasks us.tasks k.pending_tasks (live k) left nobody)
                (ground (arith, waits)) refl refl;
          parameters = refl;
          fresh_slice = ground (arith, find-refill us.tasks k.idle_task_id k.idle_task_id, at_idle);
          kernel_stack_top = refl;
          interrupt_stack_top = refl;
        };
        swept = Swept-swapped k v us left (live k) k.idle_task_id t;
      }

  swap-Popped :
      (o : Option ℕ) (q : List ℕ)
      → pop_ready us (live k) [] ≡ ret (o, q)
      → Popped us.tasks (live k) o q
      → Swapped k
  swap-Popped o q run (idle is_none same nobody) =
      let run' : pop_ready us (live k) [] ≡ ret (none, live k) = rw (run, is_none, same) in
      elim (Bool-cases (
        (k.current_task_id == k.idle_task_id)
        || is_ready_at (find k.tasks.tasks k.current_task_id))) [
          | inl goes_on ↦ swap_stays run' nobody goes_on
          | inr waits ↦ swap_idle run' nobody waits
        ]
  swap-Popped o q run (taken before id after is_some parts same none_before ready) =
      let run' : pop_ready us (live k) [] ≡ ret (some id, after ++ before) =
        rw (run, is_some, same) in
      swap_taken before after id parts none_before ready run'

-- On a valid state `task_swap_parameters` never panics, and leaves a valid state. Exactly the queued
-- killed tasks leave the table. The first ready task of the queue runs next, with a full time slice,
-- what was skipped goes behind the rest, and the previous task behind that, unless it is the idle
-- task. With no ready task the running one goes on if it is the idle task or ready, and otherwise
-- the idle task runs.
pub task_swap_parameters_lem : (k : Kernel) → Valid k → Swapped k
task_swap_parameters_lem k v =
    let (us, removed, left) =
      remove_killed_lem k.pending_tasks k.tasks v.pending_present v.distinct in
    let present = live-Present k v us left in
    let (o, q, popped, how) = pop_ready_lem (live k) us present in
    swap-Popped k v us removed left o q popped how
