-- ===== src/Sync/OnceChannel/Tests.antt =====
-- A receiver that sleeps before the value is sent, and one that is switched out before it looks.
use rust_os.Prelude.{ℕ, ◌≡◌, refl, true, false, some}
use rust_os.Sync.OnceChannel.{
  checking, scheduling, sent, Channel, take_message, receiver_step, resume, wait_sleep, interrupt,
  set_cell, sender_step, send, once_channel, Reach, here, waits, interrupts, sends,
}
use rust_os.Sync.OnceChannel.Wakeup.{is_asleep, Returns, wait_sleep-receives}
use rust_os.Sync.OnceChannel.Invariant.{is_scheduling}

abbrev slept : Channel ℕ
slept = record {
  cell = some 7;
  sleeping = false;
  switched_out = false;
  receiver = scheduling;
  sender = sent 7;
}

Reach-slept : Reach (once_channel 7) slept
unfolding once_channel wait_sleep receiver_step take_message set_cell sender_step send
Reach-slept = sends (sends (waits (waits (waits here refl) refl) refl) refl) refl

-- The sender finishes before the receiver begins to sleep, and the interrupt comes before its look.
abbrev lost : Channel ℕ
lost = record {
  cell = some 7;
  sleeping = true;
  switched_out = true;
  receiver = checking;
  sender = sent 7;
}

Reach-lost : Reach (once_channel 7) lost
unfolding once_channel wait_sleep receiver_step take_message set_cell sender_step send resume
    interrupt
Reach-lost = interrupts (waits (sends (sends (waits here refl) refl) refl) refl) refl

wait_sleep-receives_example :
    (is_scheduling slept.receiver ≡ true → slept.sleeping ≡ false)
    × (is_asleep slept ≡ false → Returns 7 slept)
    × (is_asleep slept ≡ true → (s' : Channel ℕ) → Reach slept s' → s' ≡ slept)
wait_sleep-receives_example = wait_sleep-receives 7 slept Reach-slept refl
