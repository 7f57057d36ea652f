-- ===== src/Sync/WaitCell/Invariant.antt =====
-- What holds of a wait cell in every interleaving.
use rust_os.Prelude.{
  ℕ, ◌≡◌, refl, sym, ap, subst, ◌∙◌, ◌≢◌, inl, inr, Bool, true, false, not, ◌&&◌, ◌||◌, Option,
  none, some, List, [], ◌∷◌, ◌++◌, arith, ◌==◌, Bool-cases, Option-cases,
}
use rust_os.Sync.WaitCell.{
  Waiter, outside, looping, registering, checking, scheduling, awakening, returned, Sender, sending,
  locking, draining, sent, WaitCell, update, is_locked, goto, set_sleeping, after_check,
  waiter_step, resume, wait_sleep, interrupt, set_cell, drain_step, sender_step, send_all_consumers,
  new_cell, Reach, here, waits, interrupts, sends,
}

unfoldable member : ℕ → List ℕ → Bool
member t [] = false
member t (u ∷ us) = (t == u) || member t us

member-append : (t u : ℕ) (l : List ℕ) → member t (l ++ (u ∷ [])) ≡ (member t l || (t == u))
unfolding member
member-append t u [] = ground arith
member-append t u (v ∷ l) = ground (arith, member-append t u l)

-- A task that is in the list, or should be woken up already.
abbrev is_registered : {A : Type 0} → Waiter A → Bool
is_registered outside = false
is_registered looping = false
is_registered registering = false
is_registered checking = true
is_registered scheduling = true
is_registered (awakening a) = false
is_registered (returned a) = false

abbrev pub is_scheduling : {A : Type 0} → Waiter A → Bool
is_scheduling outside = false
is_scheduling looping = false
is_scheduling registering = false
is_scheduling checking = false
is_scheduling scheduling = true
is_scheduling (awakening a) = false
is_scheduling (returned a) = false

abbrev pub is_sent : {A : Type 0} → Sender A → Bool
is_sent (sending a) = false
is_sent (locking a) = false
is_sent (draining a) = false
is_sent (sent a) = true

-- What the cell holds while the sender is there.
abbrev pub sent_value : {A : Type 0} → Sender A → Option A
sent_value (sending a) = none
sent_value (locking a) = some a
sent_value (draining a) = some a
sent_value (sent a) = some a

-- The value that the sender sends, and the one that a task has read.
abbrev pub payload : {A : Type 0} → Sender A → A
payload (sending a) = a
payload (locking a) = a
payload (draining a) = a
payload (sent a) = a

abbrev pub answer : {A : Type 0} → Waiter A → Option A
answer outside = none
answer looping = none
answer registering = none
answer checking = none
answer scheduling = none
answer (awakening a) = some a
answer (returned a) = some a

module _ {A : Type 0} where
  pub record Inv (sent_one : A) (s : WaitCell A) : Type 0 where
    pub only : payload s.sender ≡ sent_one
    pub answers : (t : ℕ) (b : A) → answer (s.waiter t) ≡ some b → s.cell ≡ some b
    pub value : s.cell ≡ sent_value s.sender
    listed :
        (t : ℕ)
        → is_registered (s.waiter t) ≡ true
        → (not (s.sleeping t) || member t s.waiting_tasks) ≡ true
    pub awake :
        is_sent s.sender ≡ true → (t : ℕ) → is_scheduling (s.waiter t) ≡ true → s.sleeping t ≡ false

  Inv-new_cell : (a : A) → Inv a (new_cell a)
  unfolding new_cell
  Inv-new_cell a = record {
    only = refl;
    answers = λ t b h. absurd (cc);
    value = refl;
    listed = λ t h. absurd (cc);
    awake = λ h. absurd (cc);
  }

  sent-some : (w : Sender A) → is_sent w ≡ true → sent_value w ≢ none
  sent-some (sending a) h e = cc
  sent-some (locking a) h e = cc
  sent-some (draining a) h e = cc
  sent-some (sent a) h e = cc

  Inv-drain :
      (v : A) (a : A) (l : List ℕ) (s : WaitCell A)
      → s.sender ≡ draining a
      → s.waiting_tasks ≡ l
      → Inv v s
      → Inv v (drain_step a l s)
  unfolding drain_step set_sleeping update member
  Inv-drain v a [] s at empty i = record {
    only = ap payload (sym at) ∙ i.only;
    answers = i.answers;
    value = i.value ∙ ap sent_value at;
    listed = i.listed;
    awake = λ h t k. ground (arith, scheduled t k, i.listed t, ap (member t) empty);
  }
    where
      scheduled : (t : ℕ) → is_scheduling (s.waiter t) ≡ true → is_registered (s.waiter t) ≡ true
      scheduled t k = ground arith
  Inv-drain v a (t ∷ ts) s at more i = record {
    only = i.only;
    answers = λ u b h. ground (arith, i.answers u b);
    value = i.value;
    listed = λ u h. ground (arith, i.listed u h, ap (member u) more);
    awake = λ h. absurd (ground (arith, at, h));
  }

  Inv-wait_sleep :
      (v : A) (w : Waiter A) (t : ℕ) (s s' : WaitCell A)
      → s.waiter t ≡ w
      → waiter_step w t s ≡ some s'
      → Inv v s
      → Inv v s'
  unfolding waiter_step goto set_sleeping update after_check
  Inv-wait_sleep v outside t s s' at e i =
      let same : goto t looping s ≡ s' = cc in
      subst (Inv v) same (record {
        only = i.only;
        answers = λ u b h. ground (arith, i.answers u b);
        value = i.value;
        listed = λ u h. ground (arith, i.listed u);
        awake = λ h u k. ground (arith, i.awake h u);
      })
  Inv-wait_sleep v looping t s s' at e i =
      let same : goto t registering (set_sleeping t true s) ≡ s' = cc in
      subst (Inv v) same (record {
        only = i.only;
        answers = λ u b h. ground (arith, i.answers u b);
        value = i.value;
        listed = λ u h. ground (arith, i.listed u);
        awake = λ h u k. ground (arith, i.awake h u);
      })
  Inv-wait_sleep v registering t s s' at e i = elim (Bool-cases (is_locked s.sender)) [
    | inl locked ↦ absurd (ground (arith, locked, e))
    | inr open_lock ↦
        let new = goto t checking (record s { waiting_tasks = s.waiting_tasks ++ (t ∷ []) }) in
        let same : new ≡ s' = ground (arith, open_lock, e) in
        subst (Inv v) same (record {
          only = i.only;
          answers = λ u b h. ground (arith, i.answers u b);
          value = i.value;
          listed = λ u h. ground (arith, i.listed u, member-append u t s.waiting_tasks);
          awake = λ h u k. ground (arith, i.awake h u);
        })
  ]
  Inv-wait_sleep v checking t s s' at e i = elim (Option-cases s.cell) [
    | inl empty ↦
        let same : goto t scheduling s ≡ s' = ground (arith, empty, e) in
        subst (Inv v) same (record {
          only = i.only;
          answers = λ u b h. ground (arith, i.answers u b);
          value = i.value;
          listed = λ u h. ground (arith, i.listed u, at);
          awake = λ h u k. absurd (ground (arith, sent-some s.sender h, i.value, empty));
        })
    | inr (a, full) ↦
        let same : goto t (awakening a) s ≡ s' = ground (arith, full, e) in
        subst (Inv v) same (record {
          only = i.only;
          answers = λ u b h. ground (arith, i.answers u b);
          value = i.value;
          listed = λ u h. ground (arith, i.listed u);
          awake = λ h u k. ground (arith, i.awake h u);
        })
  ]
  Inv-wait_sleep v scheduling t s s' at e i = elim (Bool-cases (s.sleeping t)) [
    | inl asleep ↦ absurd (ground (arith, asleep, e))
    | inr up ↦
        let same : goto t looping s ≡ s' = ground (arith, up, e) in
        subst (Inv v) same (record {
          only = i.only;
          answers = λ u b h. ground (arith, i.answers u b);
          value = i.value;
          listed = λ u h. ground (arith, i.listed u);
          awake = λ h u k. ground (arith, i.awake h u);
        })
  ]
  Inv-wait_sleep v (awakening a) t s s' at e i =
      let same : goto t (returned a) (set_sleeping t false s) ≡ s' = cc in
      subst (Inv v) same (record {
        only = i.only;
        answers = λ u b h. ground (arith, i.answers u b);
        value = i.value;
        listed = λ u h. ground (arith, i.listed u);
        awake = λ h u k. ground (arith, i.awake h u);
      })
  Inv-wait_sleep v (returned a) t s s' at e i = absurd (cc)

  Inv-send :
      (v : A) (w : Sender A) (s s' : WaitCell A)
      → s.sender ≡ w
      → sender_step w s ≡ some s'
      → Inv v s
      → Inv v s'
  unfolding sender_step set_cell
  Inv-send v (sending a) s s' at e i = elim (Option-cases s.cell) [
    | inr (b, full) ↦ absurd (ground (arith, full, e))
    | inl empty ↦
        let new = record s { cell = some a; sender = locking a } in
        let same : new ≡ s' = ground (arith, empty, e) in
        subst (Inv v) same (record {
          only = ap payload (sym at) ∙ i.only;
          answers = λ t b h. absurd (cc (i.answers t b h, empty));
          value = refl;
          listed = i.listed;
          awake = λ h. absurd (cc);
        })
  ]
  Inv-send v (locking a) s s' at e i =
      let new = record s { sender = draining a } in
      let same : new ≡ s' = cc in
      subst (Inv v) same (record {
        only = ap payload (sym at) ∙ i.only;
        answers = i.answers;
        value = i.value ∙ ap sent_value at;
        listed = i.listed;
        awake = λ h. absurd (cc);
      })
  Inv-send v (draining a) s s' at e i =
      let same : drain_step a s.waiting_tasks s ≡ s' = cc in
      subst (Inv v) same (Inv-drain v a s.waiting_tasks s at refl i)
  Inv-send v (sent a) s s' at e i = absurd (cc)

  -- The two steps of the scheduler change `switched_out` alone.
  Inv-switched :
      (v : A) (f : ℕ → Bool) (s : WaitCell A) → Inv v s → Inv v (record s { switched_out = f })
  Inv-switched v f s i = record {
    only = i.only;
    answers = i.answers;
    value = i.value;
    listed = i.listed;
    awake = i.awake;
  }

  Inv-task : (v : A) (t : ℕ) (s s' : WaitCell A) → wait_sleep t s ≡ some s' → Inv v s → Inv v s'
  unfolding wait_sleep resume
  Inv-task v t s s' e i = elim (Bool-cases (s.switched_out t)) [
    | inr on ↦ Inv-wait_sleep v (s.waiter t) t s s' refl (ground (arith, on, e)) i
    | inl out ↦ elim (Bool-cases (s.sleeping t)) [
      | inl asleep ↦ absurd (ground (arith, out, asleep, e))
      | inr up ↦
          let f = update s.switched_out t false in
          let same : record s { switched_out = f } ≡ s' = ground (arith, out, up, e) in
          subst (Inv v) same (Inv-switched v f s i)
    ]
  ]

  Inv-interrupt : (v : A) (t : ℕ) (s s' : WaitCell A) → interrupt t s ≡ some s' → Inv v s → Inv v s'
  unfolding interrupt
  Inv-interrupt v t s s' e i = elim (Bool-cases (s.sleeping t && not (s.switched_out t))) [
    | inl runs ↦
        let f = update s.switched_out t true in
        let same : record s { switched_out = f } ≡ s' = ground (arith, runs, e) in
        subst (Inv v) same (Inv-switched v f s i)
    | inr stays_on ↦ absurd (ground (arith, stays_on, e))
  ]

  pub Inv-Reach : (a : A) (s : WaitCell A) → Reach (new_cell a) s → Inv a s
  unfolding send_all_consumers
  Inv-Reach a s here = Inv-new_cell a
  Inv-Reach a s' (waits {s} t r e) = Inv-task a t s s' e (Inv-Reach a s r)
  Inv-Reach a s' (interrupts {s} t r e) = Inv-interrupt a t s s' e (Inv-Reach a s r)
  Inv-Reach a s' (sends {s} r e) = Inv-send a s.sender s s' refl e (Inv-Reach a s r)
