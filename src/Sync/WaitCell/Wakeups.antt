-- ===== src/Sync/WaitCell/Wakeups.antt =====
-- What the sender of a wait cell wakes, in every interleaving.
use rust_os.Prelude.{
  ℕ, ◌≡◌, refl, ap, ◌∙◌, inl, inr, Bool, true, false, ◌&&◌, some, [], ◌∷◌, ◌++◌, arith, Bool-cases,
}
use rust_os.Sync.WaitCell.{
  Waiter, outside, looping, registering, checking, scheduling, awakening, returned, Sender, sending,
  locking, draining, sent, WaitCell, update, is_locked, goto, set_sleeping, after_check,
  waiter_step, resume, wait_sleep, new_cell, Reach,
}
use rust_os.Sync.WaitCell.Invariant.{is_scheduling, is_sent, sent_value, payload, answer, Inv-Reach}

module _ {A : Type 0} where
  -- The steps of one task while no other runs.
  pub data Alone (t : ℕ) : WaitCell A → WaitCell A → Type 0 where
    stays : {s : WaitCell A} → Alone t s s
    steps : {s s1 s' : WaitCell A} → wait_sleep t s ≡ some s1 → Alone t s1 s' → Alone t s s'

  module _ (a : A) (t : ℕ) where
    abbrev pub Returns : WaitCell A → Type 0
    Returns s = (s' : WaitCell A) × Alone t s s' × (s'.waiter t ≡ returned a)

    -- A step, and what follows it.
    from : (s s1 : WaitCell A) → wait_sleep t s ≡ some s1 → Returns s1 → Returns s
    from s s1 e (s', run, back) = (s', steps e run, back)

    here_now : (f : ℕ → Waiter A) (w : Waiter A) → update f t w t ≡ w
    unfolding update
    here_now f w = ground arith

    from_awakening :
        (s : WaitCell A) → s.switched_out t ≡ false → s.waiter t ≡ awakening a → Returns s
    unfolding wait_sleep waiter_step goto set_sleeping
    from_awakening s on at =
        let s' = goto t (returned a) (set_sleeping t false s) in
        from s s' (rw (on, at)) (s', stays, here_now s.waiter (returned a))

    from_checking :
        (s : WaitCell A)
        → s.switched_out t ≡ false
        → s.cell ≡ some a
        → s.waiter t ≡ checking
        → Returns s
    unfolding wait_sleep waiter_step goto after_check
    from_checking s on full at =
        let s' = goto t (awakening a) s in
        from s s' (rw (on, at, full)) (from_awakening s' on (here_now s.waiter (awakening a)))

    from_registering :
        (s : WaitCell A)
        → s.switched_out t ≡ false
        → is_locked s.sender ≡ false
        → s.cell ≡ some a
        → s.waiter t ≡ registering
        → Returns s
    unfolding wait_sleep waiter_step goto
    from_registering s on unlocked full at =
        let s' = goto t checking (record s { waiting_tasks = s.waiting_tasks ++ (t ∷ []) }) in
        from s s' (rw (on, at, unlocked)) (from_checking s' on full (here_now s.waiter checking))

    from_looping :
        (s : WaitCell A)
        → s.switched_out t ≡ false
        → is_locked s.sender ≡ false
        → s.cell ≡ some a
        → s.waiter t ≡ looping
        → Returns s
    unfolding wait_sleep waiter_step goto set_sleeping
    from_looping s on unlocked full at =
        let s' = goto t registering (set_sleeping t true s) in
        from s s' (rw (on, at))
          (from_registering s' on unlocked full (here_now s.waiter registering))

    from_anywhere :
        (w : Waiter A) (s : WaitCell A)
        → s.switched_out t ≡ false
        → is_locked s.sender ≡ false
        → s.cell ≡ some a
        → (is_scheduling (s.waiter t) ≡ true → s.sleeping t ≡ false)
        → ((b : A) → answer (s.waiter t) ≡ some b → b ≡ a)
        → s.waiter t ≡ w
        → Returns s
    unfolding wait_sleep waiter_step goto
    from_anywhere outside s on unlocked full up same at =
        let s' = goto t looping s in
        from s s' (rw (on, at)) (from_looping s' on unlocked full (here_now s.waiter looping))
    from_anywhere looping s on unlocked full up same at = from_looping s on unlocked full at
    from_anywhere registering s on unlocked full up same at = from_registering s on unlocked full at
    from_anywhere checking s on unlocked full up same at = from_checking s on full at
    from_anywhere scheduling s on unlocked full up same at =
        let awake : s.sleeping t ≡ false = up (ap is_scheduling at) in
        let s' = goto t looping s in
        from s s' (rw (on, at, awake))
          (from_looping s' on unlocked full (here_now s.waiter looping))
    from_anywhere (awakening b) s on unlocked full up same at =
        from_awakening s on (at ∙ ap awakening (same b (ap answer at)))
    from_anywhere (returned b) s on unlocked full up same at =
        (s, stays, at ∙ ap returned (same b (ap answer at)))

  sent-facts :
      (w : Sender A) (a : A)
      → is_sent w ≡ true
      → payload w ≡ a
      → (is_locked w ≡ false) × (sent_value w ≡ some a)
  sent-facts (sending b) a h e = absurd (cc)
  sent-facts (locking b) a h e = absurd (cc)
  sent-facts (draining b) a h e = absurd (cc)
  sent-facts (sent b) a h e = (refl, ap some e)

  -- A task that an interrupt has switched out while it was set to sleep.
  abbrev pub is_asleep : ℕ → WaitCell A → Bool
  is_asleep t s = s.switched_out t && s.sleeping t

  from_task :
      (a : A) (t : ℕ) (s : WaitCell A)
      → is_asleep t s ≡ false
      → is_locked s.sender ≡ false
      → s.cell ≡ some a
      → (is_scheduling (s.waiter t) ≡ true → s.sleeping t ≡ false)
      → ((b : A) → answer (s.waiter t) ≡ some b → b ≡ a)
      → Returns a t s
  unfolding wait_sleep resume update
  from_task a t s runs unlocked full up same = elim (Bool-cases (s.switched_out t)) [
    | inr on ↦ from_anywhere a t (s.waiter t) s on unlocked full up same refl
    | inl out ↦
        let awake : s.sleeping t ≡ false = ground (arith, out, runs) in
        let s1 = record s { switched_out = update s.switched_out t false } in
        from a t s s1 (rw (out, awake))
          (from_anywhere a t (s.waiter t) s1 (ground arith) unlocked full up same refl)
  ]

  -- Whatever the interleaving of the waiting tasks, the sender and the timer's interrupts was: once
  -- the sender has finished, no task that is inside `run_scheduler` is set to sleep, and every task
  -- that was not switched out by an interrupt while set to sleep, wherever in its call of
  -- `wait_sleep` it is, gets to the call's end by its own steps alone, with the value that was sent.
  pub wait_sleep-Returns :
      (a : A) (s : WaitCell A) (t : ℕ)
      → Reach (new_cell a) s
      → is_sent s.sender ≡ true
      → (is_scheduling (s.waiter t) ≡ true → s.sleeping t ≡ false)
        × (is_asleep t s ≡ false → Returns a t s)
  wait_sleep-Returns a s t r h =
      let i = Inv-Reach a s r in
      let facts = sent-facts s.sender a h i.only in
      let full : s.cell ≡ some a = i.value ∙ facts.1 in
      (
        i.awake h t,
        λ runs.
            from_task a t s runs facts.0 full (i.awake h t)
              λ b e. let same = i.answers t b e in cc (same, full),
      )
