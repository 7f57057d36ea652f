-- ===== src/Sync/OnceChannel/Wakeup.antt =====
-- When the receiver's wake-up is not lost, and when it is.
use rust_os.Prelude.{
  ◌≡◌, refl, ap, ◌∙◌, inl, inr, Bool, true, false, ◌&&◌, none, some, arith, Bool-cases,
}
use rust_os.Sync.OnceChannel.{
  Receiver, outside, looping, checking, scheduling, awakening, returned, Sender, sending, waking,
  sent, Channel, take_message, receiver_step, resume, wait_sleep, interrupt, sender_step, send,
  once_channel, Reach, here, waits, interrupts, sends,
}
use rust_os.Sync.OnceChannel.Invariant.{is_scheduling, is_sent, answer, not_sending, Inv-Reach}

-- A receiver that an interrupt has switched out while it was set to sleep.
abbrev pub is_asleep : {A : Type 0} → Channel A → Bool
is_asleep s = s.switched_out && s.sleeping

module _ {A : Type 0} (v : A) where
  -- The steps of the receiver alone.
  pub data Alone : Channel A → Channel A → Type 0 where
    stays : {s : Channel A} → Alone s s
    steps : {s s1 s' : Channel A} → wait_sleep s ≡ some s1 → Alone s1 s' → Alone s s'

  abbrev pub Returns : Channel A → Type 0
  Returns s = (s' : Channel A) × Alone s s' × (s'.receiver ≡ returned v)

  from : (s s1 : Channel A) → wait_sleep s ≡ some s1 → Returns s1 → Returns s
  from s s1 e (s', run, back) = (s', steps e run, back)

  from_awakening : (s : Channel A) → s.switched_out ≡ false → s.receiver ≡ awakening v → Returns s
  unfolding wait_sleep receiver_step
  from_awakening s on at =
      let s' = record s { sleeping = false; receiver = returned v } in
      from s s' (rw (on, at)) (s', stays, refl)

  from_checking :
      (s : Channel A) → s.switched_out ≡ false → s.cell ≡ some v → s.receiver ≡ checking → Returns s
  unfolding wait_sleep receiver_step take_message
  from_checking s on full at =
      let s' = record s { cell = none; receiver = awakening v } in
      from s s' (rw (on, at, full)) (from_awakening s' on refl)

  from_looping :
      (s : Channel A) → s.switched_out ≡ false → s.cell ≡ some v → s.receiver ≡ looping → Returns s
  unfolding wait_sleep receiver_step
  from_looping s on full at =
      let s' = record s { sleeping = true; receiver = checking } in
      from s s' (rw (on, at)) (from_checking s' on full refl)

  from_anywhere :
      (w : Receiver A) (s : Channel A)
      → s.switched_out ≡ false
      → (is_scheduling s.receiver ≡ true → s.sleeping ≡ false)
      → (answer s.receiver ≡ none → s.cell ≡ some v)
      → ((b : A) → answer s.receiver ≡ some b → b ≡ v)
      → s.receiver ≡ w
      → Returns s
  unfolding wait_sleep receiver_step
  from_anywhere outside s on up full read at =
      let s' = record s { receiver = looping } in
      from s s' (rw (on, at)) (from_looping s' on (full (ap answer at)) refl)
  from_anywhere looping s on up full read at = from_looping s on (full (ap answer at)) at
  from_anywhere checking s on up full read at = from_checking s on (full (ap answer at)) at
  from_anywhere scheduling s on up full read at =
      let awake : s.sleeping ≡ false = up (ap is_scheduling at) in
      let s' = record s { receiver = looping } in
      from s s' (rw (on, at, awake)) (from_looping s' on (full (ap answer at)) refl)
  from_anywhere (awakening b) s on up full read at =
      from_awakening s on (at ∙ ap awakening (read b (ap answer at)))
  from_anywhere (returned b) s on up full read at =
      (s, stays, at ∙ ap returned (read b (ap answer at)))

  from_receiver :
      (s : Channel A)
      → is_asleep s ≡ false
      → (is_scheduling s.receiver ≡ true → s.sleeping ≡ false)
      → (answer s.receiver ≡ none → s.cell ≡ some v)
      → ((b : A) → answer s.receiver ≡ some b → b ≡ v)
      → Returns s
  unfolding wait_sleep resume
  from_receiver s runs up full read = elim (Bool-cases s.switched_out) [
    | inr on ↦ from_anywhere s.receiver s on up full read refl
    | inl out ↦
        let awake : s.sleeping ≡ false = ground (arith, out, runs) in
        let s1 = record s { switched_out = false } in
        from s s1 (rw (out, awake)) (from_anywhere s.receiver s1 refl up full read refl)
  ]

  sent-stops : (w : Sender A) (s : Channel A) → is_sent w ≡ true → sender_step w s ≡ none
  unfolding sender_step
  sent-stops (sending a) s h = absurd (cc)
  sent-stops (waking a) s h = absurd (cc)
  sent-stops (sent a) s h = refl

  -- A step from a state in which the sender has finished and the receiver is asleep: there is none.
  stuck :
      (s : Channel A)
      → is_sent s.sender ≡ true
      → is_asleep s ≡ true
      → (wait_sleep s ≡ none) × (interrupt s ≡ none) × (send s ≡ none)
  unfolding wait_sleep resume interrupt send
  stuck s over asleep = (ground (arith, asleep), ground (arith, asleep), sent-stops s.sender s over)

  stays_there :
      (s s' : Channel A) → is_sent s.sender ≡ true → is_asleep s ≡ true → Reach s s' → s' ≡ s
  stays_there s s' over asleep here = refl
  stays_there s s' over asleep (waits {s = s1} r e) =
      let same = stays_there s s1 over asleep r in
      let stops = (stuck s over asleep).0 in absurd (cc (same, stops, e))
  stays_there s s' over asleep (interrupts {s = s1} r e) =
      let same = stays_there s s1 over asleep r in
      let stops = (stuck s over asleep).1 in absurd (cc (same, stops, e))
  stays_there s s' over asleep (sends {s = s1} r e) =
      let same = stays_there s s1 over asleep r in
      let stops = (stuck s over asleep).2 in absurd (cc (same, stops, e))

  -- Whatever the interleaving of the sender, the receiver and the timer's interrupts was: once the
  -- sender has finished, the receiver is not set to sleep inside `run_scheduler`; wherever in its call
  -- of `wait_sleep` it is, it gets to the call's end by its own steps alone, with the value that was
  -- sent, if it was not switched out by an interrupt while set to sleep; and if it was, nothing happens
  -- any more.
  pub wait_sleep-receives :
      (s : Channel A)
      → Reach (once_channel v) s
      → is_sent s.sender ≡ true
      → (is_scheduling s.receiver ≡ true → s.sleeping ≡ false)
        × (is_asleep s ≡ false → Returns s)
        × (is_asleep s ≡ true → (s' : Channel A) → Reach s s' → s' ≡ s)
  wait_sleep-receives s r h =
      let i = Inv-Reach v s r in
      (
        i.awake h,
        λ runs.
            from_receiver s runs (i.awake h)
              (λ unread. elim (i.there (not_sending v s.sender h)) [
                | inl full ↦ full
                | inr read ↦ absurd (cc (unread, read))
              ])
              i.read,
        λ asleep s' later. stays_there s s' h asleep later,
      )
