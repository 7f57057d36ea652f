-- ===== src/Sched/Swap/Run.antt =====
-- `task_swap_parameters` from start to end.
use rust_os.Prelude.{
  ℕ, ◌+◌, ◌≤◌, ◌<◌, ◌≡◌, refl, sym, ap, ◌∙◌, ◌≢◌, Bool, true, false, ◌&&◌, Option, none, some, List,
  ◌∷◌, ◌++◌, arith, ltb, ◌==◌, if◌then◌else◌,
}
use mathlib.Core.Option
use rust_os.Sched.Task.{Task, Tasks, find, update}
use rust_os.Sched.Core.{Kernel}
use rust_os.Sched.Store.{count, Has, Present, count-append, is_killed_at, is_ready_at}
use rust_os.Sched.Queue.{count-survivors, Removed, NoneReady}
use rust_os.Sched.Swap.{
  Valid, live, first_ready, Switched, swapped, ready-Removed, NoneReady-Removed, kept-Removed,
  survivor-Removed,
}
use rust_os.Sched.Swap.Steps.{refill, find-refill, swapped-Valid}

-- The table keeps every task but the queued killed ones.
abbrev pub Swept : Kernel → Kernel → Type 0
Swept k k' =
    (x : ℕ)
    → Option.map refill (find k'.tasks.tasks x)
      ≡ Option.map refill (
          if is_killed_at (find k.tasks.tasks x) && ltb 0 (count x k.pending_tasks)
          then none
          else find k.tasks.tasks x)

refill_again :
    (ts : List Task) (i x : ℕ)
    → Option.map refill (find (update ts i refill) x) ≡ Option.map refill (find ts x)
refill_again ts i x = rw (find-refill ts i x) (go (i == x) (find ts x))
  where
    go :
        (b : Bool) (o : Option Task)
        → Option.map refill (if b then Option.map refill o else o) ≡ Option.map refill o
    go false o = refl
    go true none = refl
    go true (some t) = refl

module _ (k : Kernel) (v : Valid k) (us : Tasks)
    (left : Removed k.tasks.tasks us.tasks k.pending_tasks) where
  pub live_le : (x : ℕ) → count x (live k) ≤ count x k.pending_tasks
  live_le x = ground (arith, count-survivors k.tasks.tasks k.pending_tasks x)

  pub live-Present : Present us.tasks (live k)
  live-Present x h =
      let (t, at) = v.pending_present x (omega (arith, live_le x)) in
      (t, survivor-Removed k.tasks.tasks us.tasks k.pending_tasks x left h ∙ at)

  pub current_kept : find us.tasks k.current_task_id ≡ find k.tasks.tasks k.current_task_id
  current_kept =
      kept-Removed k.tasks.tasks us.tasks k.pending_tasks k.current_task_id left v.current_apart

  pub idle_kept : find us.tasks k.idle_task_id ≡ find k.tasks.tasks k.idle_task_id
  idle_kept = kept-Removed k.tasks.tasks us.tasks k.pending_tasks k.idle_task_id left v.idle_apart

  pub current_there : Has us.tasks k.current_task_id
  current_there = (v.current_present.0, current_kept ∙ v.current_present.1)

  pub idle_there : Has us.tasks k.idle_task_id
  idle_there = (v.idle_present.0, idle_kept ∙ v.idle_present.1)

  abbrev pub cleaned : List ℕ → Kernel
  cleaned q = record k { tasks = us; pending_tasks = q }

  pub stays-Valid : Valid (cleaned (live k))
  stays-Valid = record {
    pending_present = live-Present;
    current_present = current_there;
    idle_present = idle_there;
    distinct = λ x. omega (arith, live_le x, v.distinct x);
    current_apart = omega (arith, live_le k.current_task_id, v.current_apart);
    idle_apart = omega (arith, live_le k.idle_task_id, v.idle_apart);
  }

  -- Taking a task from the queue.
  count-taken :
      (before after : List ℕ) (id x : ℕ)
      → live k ≡ before ++ id ∷ after
      → count x (live k) ≡ count x (after ++ before) + (if x == id then 1 else 0)
  count-taken before after id x parts =
      rw parts (ground (arith, count-append x before (id ∷ after), count-append x after before))

  taken-apart :
      (before after : List ℕ) (id : ℕ)
      → live k ≡ before ++ id ∷ after
      → (k.current_task_id ≢ id)
        × (count k.current_task_id (after ++ before) ≡ 0)
        × (count k.idle_task_id (after ++ before) ≡ 0)
  taken-apart before after id parts =
      let here = count-taken before after id in
      (
        (λ same. absurd (
            ground
              (arith, here k.current_task_id parts, live_le k.current_task_id, v.current_apart))),
        ground (arith, here k.current_task_id parts, live_le k.current_task_id, v.current_apart),
        ground (arith, here k.idle_task_id parts, live_le k.idle_task_id, v.idle_apart),
      )

  taken-Present :
      (before after : List ℕ) (id : ℕ)
      → live k ≡ before ++ id ∷ after
      → Present us.tasks (after ++ before)
  taken-Present before after id parts x h =
      live-Present x (ground (arith, count-taken before after id x parts))

  pub Swept-swapped : (q : List ℕ) (next : ℕ) (t : Task) → Swept k (swapped (cleaned q) next t)
  Swept-swapped q next t x = refill_again us.tasks next x ∙ ap (Option.map refill) (left x)

  -- The next task is the first ready one.
  pub taken-Valid :
      (before after : List ℕ) (id : ℕ) (t : Task)
      → live k ≡ before ++ id ∷ after
      → find us.tasks id ≡ some t
      → Valid (swapped (cleaned (after ++ before)) id t)
  taken-Valid before after id t parts at =
      let apart = taken-apart before after id parts in
      swapped-Valid (cleaned (after ++ before)) id t at current_there idle_there
        (taken-Present before after id parts)
        (λ x. omega (arith, count-taken before after id x parts, live_le x, v.distinct x)) apart.1
        apart.2 apart.0

  pub taken-Switched :
      (before after : List ℕ) (id : ℕ) (t : Task)
      → live k ≡ before ++ id ∷ after
      → find us.tasks id ≡ some t
      → NoneReady us.tasks before
      → is_ready_at (find us.tasks id) ≡ true
      → Switched k (swapped (cleaned (after ++ before)) id t) (record {
        prev = k.current_task_id;
        next_stack_ptr = t.rsp;
        next_page_table = t.page_table;
      })
  taken-Switched before after id t parts at none_before ready =
      let queued : 0 < count id (live k) = ground (arith, count-taken before after id id parts) in
      record {
        task = t;
        found = sym (survivor-Removed k.tasks.tasks us.tasks k.pending_tasks id left queued) ∙ at;
        changes = (taken-apart before after id parts).0;
        picked =
            first_ready before after parts
              (NoneReady-Removed k.tasks.tasks us.tasks k.pending_tasks before left none_before)
              (sym (ready-Removed k.tasks.tasks us.tasks k.pending_tasks id left) ∙ ready) refl;
        parameters = refl;
        fresh_slice = ground (arith, find-refill us.tasks id id, at);
        kernel_stack_top = refl;
        interrupt_stack_top = refl;
      }
