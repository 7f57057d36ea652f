-- ===== src/Sync/WaitCell/LostWakeup.antt =====
-- The wake-up that a task misses when a timer interrupt switches it out before it has registered.
use rust_os.Prelude.{
  ℕ, ◌≡◌, refl, subst, inl, inr, true, false, not, ◌&&◌, none, some, [], ◌∷◌, ◌++◌, arith, ◌==◌,
  Bool-cases,
}
use rust_os.Sync.WaitCell.{
  Waiter, outside, looping, registering, checking, scheduling, awakening, returned, Sender, sending,
  locking, draining, sent, WaitCell, update, is_locked, goto, set_sleeping, after_check,
  waiter_step, resume, wait_sleep, interrupt, set_cell, drain_step, sender_step, send_all_consumers,
  new_cell, Reach, here, waits, interrupts, sends,
}
use rust_os.Sync.WaitCell.Invariant.{is_sent}
use rust_os.Sync.WaitCell.Wakeups.{is_asleep}

here_now : {B : Type 0} (t : ℕ) (f : ℕ → B) (b : B) → update f t b t ≡ b
unfolding update
here_now t f b = ground arith

module _ {A : Type 0} where
  -- A task that sleeps, switched out, with no sender left to wake it.
  record Lost (t : ℕ) (w : Waiter A) (s : WaitCell A) : Type 0 where
    out : s.switched_out t ≡ true
    asleep : s.sleeping t ≡ true
    at : s.waiter t ≡ w
    over : is_sent s.sender ≡ true

  Lost-step :
      (t u : ℕ) (v w : Waiter A) (s s' : WaitCell A)
      → (t == u) ≡ false
      → waiter_step v u s ≡ some s'
      → Lost t w s
      → Lost t w s'
  unfolding waiter_step goto set_sleeping update
  Lost-step t u outside w s s' other e l =
      let same : goto u looping s ≡ s' = cc in
      subst (Lost t w) same (record {
        out = l.out;
        asleep = ground (arith, other, l.asleep);
        at = ground (arith, other, l.at);
        over = l.over;
      })
  Lost-step t u looping w s s' other e l =
      let same : goto u registering (set_sleeping u true s) ≡ s' = cc in
      subst (Lost t w) same (record {
        out = l.out;
        asleep = ground (arith, other, l.asleep);
        at = ground (arith, other, l.at);
        over = l.over;
      })
  Lost-step t u registering w s s' other e l = elim (Bool-cases (is_locked s.sender)) [
    | inl locked ↦ absurd (ground (arith, locked, e))
    | inr open_lock ↦
        let new = goto u checking (record s { waiting_tasks = s.waiting_tasks ++ (u ∷ []) }) in
        let same : new ≡ s' = ground (arith, open_lock, e) in
        subst (Lost t w) same (record {
          out = l.out;
          asleep = ground (arith, other, l.asleep);
          at = ground (arith, other, l.at);
          over = l.over;
        })
  ]
  Lost-step t u checking w s s' other e l =
      let same : goto u (after_check s.cell) s ≡ s' = cc in
      subst (Lost t w) same (record {
        out = l.out;
        asleep = ground (arith, other, l.asleep);
        at = ground (arith, other, l.at);
        over = l.over;
      })
  Lost-step t u scheduling w s s' other e l = elim (Bool-cases (s.sleeping u)) [
    | inl asleep ↦ absurd (ground (arith, asleep, e))
    | inr up ↦
        let same : goto u looping s ≡ s' = ground (arith, up, e) in
        subst (Lost t w) same (record {
          out = l.out;
          asleep = ground (arith, other, l.asleep);
          at = ground (arith, other, l.at);
          over = l.over;
        })
  ]
  Lost-step t u (awakening a) w s s' other e l =
      let same : goto u (returned a) (set_sleeping u false s) ≡ s' = cc in
      subst (Lost t w) same (record {
        out = l.out;
        asleep = ground (arith, other, l.asleep);
        at = ground (arith, other, l.at);
        over = l.over;
      })
  Lost-step t u (returned a) w s s' other e l = absurd (cc)

  Lost-task :
      (t u : ℕ) (w : Waiter A) (s s' : WaitCell A)
      → wait_sleep u s ≡ some s'
      → Lost t w s
      → Lost t w s'
  unfolding wait_sleep resume update
  Lost-task t u w s s' e l = elim (Bool-cases (t == u)) [
    | inl same ↦ absurd (ground (arith, same, e, l.out, l.asleep))
    | inr other ↦ elim (Bool-cases (s.switched_out u)) [
      | inr on ↦ Lost-step t u (s.waiter u) w s s' other (ground (arith, on, e)) l
      | inl out ↦ elim (Bool-cases (s.sleeping u)) [
        | inl asleep ↦ absurd (ground (arith, out, asleep, e))
        | inr up ↦
            let new = record s { switched_out = update s.switched_out u false } in
            let same : new ≡ s' = ground (arith, out, up, e) in
            subst (Lost t w) same (record {
              out = ground (arith, other, l.out);
              asleep = l.asleep;
              at = l.at;
              over = l.over;
            })
      ]
    ]
  ]

  Lost-interrupt :
      (t u : ℕ) (w : Waiter A) (s s' : WaitCell A)
      → interrupt u s ≡ some s'
      → Lost t w s
      → Lost t w s'
  unfolding interrupt update
  Lost-interrupt t u w s s' e l = elim (Bool-cases (s.sleeping u && not (s.switched_out u))) [
    | inr stays_on ↦ absurd (ground (arith, stays_on, e))
    | inl runs ↦
        let new = record s { switched_out = update s.switched_out u true } in
        let same : new ≡ s' = ground (arith, runs, e) in
        subst (Lost t w) same
          (record { out = ground (arith, l.out); asleep = l.asleep; at = l.at; over = l.over })
  ]

  sent-stops : (w : Sender A) (s : WaitCell A) → is_sent w ≡ true → sender_step w s ≡ none
  unfolding sender_step
  sent-stops (sending a) s h = absurd (cc)
  sent-stops (locking a) s h = absurd (cc)
  sent-stops (draining a) s h = absurd (cc)
  sent-stops (sent a) s h = refl

  Lost-Reach : (t : ℕ) (w : Waiter A) (s s' : WaitCell A) → Lost t w s → Reach s s' → Lost t w s'
  unfolding send_all_consumers
  Lost-Reach t w s s' l here = l
  Lost-Reach t w s s' l (waits {s = s1} u r e) = Lost-task t u w s1 s' e (Lost-Reach t w s s1 l r)
  Lost-Reach t w s s' l (interrupts {s = s1} u r e) =
      Lost-interrupt t u w s1 s' e (Lost-Reach t w s s1 l r)
  Lost-Reach t w s s' l (sends {s = s1} r e) =
      let before = Lost-Reach t w s s1 l r in
      let stops = sent-stops s1.sender s1 before.over in absurd (cc)

  -- The steps of task `t` up to its registration, the interrupt, and the steps of the sender.
  abbrev began : A → ℕ → WaitCell A
  began a t = goto t looping (new_cell a)

  abbrev prepared : A → ℕ → WaitCell A
  prepared a t = goto t registering (set_sleeping t true (began a t))

  abbrev preempted : A → ℕ → WaitCell A
  preempted a t = record (prepared a t) { switched_out = update (prepared a t).switched_out t true }

  abbrev lost_state : A → ℕ → WaitCell A
  lost_state a t = record (preempted a t) { cell = some a; sender = sent a }

  Reach-prepared : (a : A) (t : ℕ) → Reach (new_cell a) (prepared a t)
  unfolding new_cell wait_sleep waiter_step goto set_sleeping
  Reach-prepared a t =
      let second : wait_sleep t (began a t) ≡ some (prepared a t) =
        rw (here_now t (new_cell a).waiter looping) refl in
      waits t (waits t here refl) second

  Reach-preempted : (a : A) (t : ℕ) → Reach (new_cell a) (preempted a t)
  unfolding interrupt new_cell goto set_sleeping
  Reach-preempted a t =
      let out : interrupt t (prepared a t) ≡ some (preempted a t) =
        rw (here_now t (new_cell a).sleeping true) refl in
      interrupts t (Reach-prepared a t) out

  Reach-lost_state : (a : A) (t : ℕ) → Reach (new_cell a) (lost_state a t)
  unfolding send_all_consumers sender_step set_cell drain_step new_cell goto set_sleeping
  Reach-lost_state a t = sends (sends (sends (Reach-preempted a t) refl) refl) refl

  -- A wake-up can be lost: for every task and every value there is an interleaving in which the
  -- sender finishes and, in every state that may come after it, the task is still where it was before
  -- it registered, set to sleep and switched out.
  pub wait_sleep-lost :
      (a : A) (t : ℕ)
      → (s : WaitCell A) × Reach (new_cell a) s
        × (is_sent s.sender ≡ true)
        × ((s' : WaitCell A) → Reach s s' → (s'.waiter t ≡ registering) × (is_asleep t s' ≡ true))
  unfolding update goto set_sleeping new_cell
  wait_sleep-lost a t =
      let lost : Lost t registering (lost_state a t) = record {
        out = ground arith;
        asleep = ground arith;
        at = ground arith;
        over = refl;
      } in
      (
        lost_state a t,
        Reach-lost_state a t,
        refl,
        λ s' r.
            let l = Lost-Reach t registering (lost_state a t) s' lost r in
            (l.at, ground (arith, l.out, l.asleep)),
      )
