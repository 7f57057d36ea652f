-- ===== src/Sync/OnceChannel/Invariant.antt =====
-- What holds of a channel in every interleaving.
use rust_os.Prelude.{
  ◌≡◌, refl, sym, ap, subst, ◌∙◌, ◌⊎◌, inl, inr, Bool, true, false, not, ◌&&◌, Option, none, some,
  arith, Bool-cases,
}
use rust_os.Sync.OnceChannel.{
  Receiver, outside, looping, checking, scheduling, awakening, returned, Sender, sending, waking,
  sent, Channel, take_message, receiver_step, resume, wait_sleep, interrupt, set_cell, sender_step,
  send, once_channel, Reach, here, waits, interrupts, sends,
}

abbrev pub is_scheduling : {A : Type 0} → Receiver A → Bool
is_scheduling outside = false
is_scheduling looping = false
is_scheduling checking = false
is_scheduling scheduling = true
is_scheduling (awakening a) = false
is_scheduling (returned a) = false

abbrev pub answer : {A : Type 0} → Receiver A → Option A
answer outside = none
answer looping = none
answer checking = none
answer scheduling = none
answer (awakening a) = some a
answer (returned a) = some a

abbrev pub is_sending : {A : Type 0} → Sender A → Bool
is_sending (sending a) = true
is_sending (waking a) = false
is_sending (sent a) = false

abbrev pub is_sent : {A : Type 0} → Sender A → Bool
is_sent (sending a) = false
is_sent (waking a) = false
is_sent (sent a) = true

abbrev payload : {A : Type 0} → Sender A → A
payload (sending a) = a
payload (waking a) = a
payload (sent a) = a

module _ {A : Type 0} (v : A) where
  pub record Inv (s : Channel A) : Type 0 where
    only : payload s.sender ≡ v
    empty : is_sending s.sender ≡ true → s.cell ≡ none
    unread : is_sending s.sender ≡ true → answer s.receiver ≡ none
    pub read : (b : A) → answer s.receiver ≡ some b → b ≡ v
    pub there : is_sending s.sender ≡ false → (s.cell ≡ some v) ⊎ (answer s.receiver ≡ some v)
    pub awake : is_sent s.sender ≡ true → is_scheduling s.receiver ≡ true → s.sleeping ≡ false

  Inv-once_channel : Inv (once_channel v)
  unfolding once_channel
  Inv-once_channel = record {
    only = refl;
    empty = λ h. refl;
    unread = λ h. refl;
    read = λ b h. absurd (cc);
    there = λ h. absurd (cc);
    awake = λ h. absurd (cc);
  }

  pub not_sending : (w : Sender A) → is_sent w ≡ true → is_sending w ≡ false
  not_sending (sending a) h = absurd (cc)
  not_sending (waking a) h = refl
  not_sending (sent a) h = refl

  -- A step of the receiver that reads nothing and does not begin to sleep.
  Inv-moved :
      (s s' : Channel A)
      → s'.cell ≡ s.cell
      → s'.sender ≡ s.sender
      → answer s'.receiver ≡ answer s.receiver
      → is_scheduling s'.receiver ≡ false
      → Inv s
      → Inv s'
  Inv-moved s s' cell sender same up i = record {
    only = ap payload sender ∙ i.only;
    empty = λ h. cell ∙ i.empty (sym (ap is_sending sender) ∙ h);
    unread = λ h. same ∙ i.unread (sym (ap is_sending sender) ∙ h);
    read = λ b h. i.read b (sym same ∙ h);
    there = λ h. elim (i.there (sym (ap is_sending sender) ∙ h)) [
      | inl full ↦ inl (cell ∙ full)
      | inr read ↦ inr (same ∙ read)
    ];
    awake = λ h k. absurd (cc (up, k));
  }

  Inv-take_message :
      (o : Option A) (s : Channel A)
      → s.cell ≡ o
      → s.receiver ≡ checking
      → Inv s
      → Inv (take_message o s)
  unfolding take_message
  Inv-take_message none s cell at i = record {
    only = i.only;
    empty = λ h. cell;
    unread = λ h. refl;
    read = λ b h. absurd (cc);
    there = λ h. absurd (nothing_read h);
    awake = λ h k. absurd (nothing_read (not_sending s.sender h));
  }
    where
      nothing_read : is_sending s.sender ≡ false → ⊥
      nothing_read h = elim (i.there h) [
        | inl full ↦ cc
        | inr read ↦ let unread = ap answer at in cc
      ]
  Inv-take_message (some a) s cell at i = record {
    only = i.only;
    empty = λ h. refl;
    unread = λ h. let none_there = i.empty h in absurd (cc);
    read = λ b h. first b h;
    there = λ h. elim (i.there h) [
      | inl full ↦ inr (sym cell ∙ full)
      | inr read ↦ let unread = ap answer at in absurd (cc)
    ];
    awake = λ h k. absurd (cc);
  }
    where
      first : (b : A) → some a ≡ some b → b ≡ v
      first b h = elim (Bool-cases (is_sending s.sender)) [
        | inl early ↦ let none_there = i.empty early in absurd (cc)
        | inr late ↦ elim (i.there late) [
          | inl full ↦ cc
          | inr read_it ↦ let unread_at = ap answer at in absurd (cc)
        ]
      ]

  Inv-wait_sleep :
      (w : Receiver A) (s s' : Channel A)
      → s.receiver ≡ w
      → receiver_step w s ≡ some s'
      → Inv s
      → Inv s'
  unfolding receiver_step
  Inv-wait_sleep outside s s' at e i =
      let new = record s { receiver = looping } in
      let same : new ≡ s' = cc in
      subst Inv same (Inv-moved s new refl refl (sym (ap answer at)) refl i)
  Inv-wait_sleep looping s s' at e i =
      let new = record s { sleeping = true; receiver = checking } in
      let same : new ≡ s' = cc in
      subst Inv same (Inv-moved s new refl refl (sym (ap answer at)) refl i)
  Inv-wait_sleep checking s s' at e i =
      let same : take_message s.cell s ≡ s' = cc in
      subst Inv same (Inv-take_message s.cell s refl at i)
  Inv-wait_sleep scheduling s s' at e i = elim (Bool-cases s.sleeping) [
    | inl asleep ↦ absurd (ground (arith, asleep, e))
    | inr up ↦
        let new = record s { receiver = looping } in
        let same : new ≡ s' = ground (arith, up, e) in
        subst Inv same (Inv-moved s new refl refl (sym (ap answer at)) refl i)
  ]
  Inv-wait_sleep (awakening a) s s' at e i =
      let new = record s { sleeping = false; receiver = returned a } in
      let same : new ≡ s' = cc in
      subst Inv same (Inv-moved s new refl refl (sym (ap answer at)) refl i)
  Inv-wait_sleep (returned a) s s' at e i = absurd (cc)

  Inv-send :
      (w : Sender A) (s s' : Channel A) → s.sender ≡ w → sender_step w s ≡ some s' → Inv s → Inv s'
  unfolding sender_step set_cell
  Inv-send (sending a) s s' at e i =
      let empty = i.empty (ap is_sending at) in
      let new = record s { cell = some a; sender = waking a } in
      let same : new ≡ s' = ground (arith, empty, e) in
      subst Inv same (record {
        only = ap payload (sym at) ∙ i.only;
        empty = λ h. absurd (cc);
        unread = λ h. absurd (cc);
        read = i.read;
        there = λ h. inl (ap some (ap payload (sym at) ∙ i.only));
        awake = λ h. absurd (cc);
      })
  Inv-send (waking a) s s' at e i =
      let new = record s { sleeping = false; sender = sent a } in
      let same : new ≡ s' = cc in
      subst Inv same (record {
        only = ap payload (sym at) ∙ i.only;
        empty = λ h. absurd (cc);
        unread = λ h. absurd (cc);
        read = i.read;
        there = λ h. i.there (ap is_sending at);
        awake = λ h k. refl;
      })
  Inv-send (sent a) s s' at e i = absurd (cc)

  -- The two steps of the scheduler change `switched_out` alone.
  Inv-switched : (b : Bool) (s : Channel A) → Inv s → Inv (record s { switched_out = b })
  Inv-switched b s i = record {
    only = i.only;
    empty = i.empty;
    unread = i.unread;
    read = i.read;
    there = i.there;
    awake = i.awake;
  }

  Inv-task : (s s' : Channel A) → wait_sleep s ≡ some s' → Inv s → Inv s'
  unfolding wait_sleep resume
  Inv-task s s' e i = elim (Bool-cases s.switched_out) [
    | inr on ↦ Inv-wait_sleep s.receiver s s' refl (ground (arith, on, e)) i
    | inl out ↦ elim (Bool-cases s.sleeping) [
      | inl asleep ↦ absurd (ground (arith, out, asleep, e))
      | inr up ↦
          let same : record s { switched_out = false } ≡ s' = ground (arith, out, up, e) in
          subst Inv same (Inv-switched false s i)
    ]
  ]

  Inv-interrupt : (s s' : Channel A) → interrupt s ≡ some s' → Inv s → Inv s'
  unfolding interrupt
  Inv-interrupt s s' e i = elim (Bool-cases (s.sleeping && not s.switched_out)) [
    | inl runs ↦
        let same : record s { switched_out = true } ≡ s' = ground (arith, runs, e) in
        subst Inv same (Inv-switched true s i)
    | inr stays_on ↦ absurd (ground (arith, stays_on, e))
  ]

  pub Inv-Reach : (s : Channel A) → Reach (once_channel v) s → Inv s
  unfolding send
  Inv-Reach s here = Inv-once_channel
  Inv-Reach s' (waits {s} r e) = Inv-task s s' e (Inv-Reach s r)
  Inv-Reach s' (interrupts {s} r e) = Inv-interrupt s s' e (Inv-Reach s r)
  Inv-Reach s' (sends {s} r e) = Inv-send s.sender s s' refl e (Inv-Reach s r)
