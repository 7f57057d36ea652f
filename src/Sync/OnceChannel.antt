-- ===== src/Sync/OnceChannel.antt =====
-- kernel/src/sync/once_channel.rs: one value sent to one receiver, which sleeps until it is there.
-- Each call of the scheduler and of the cell is one step of the receiver or of the sender. A timer
-- interrupt is a step too: `prepare_to_sleep` asks for the scheduler, so that an interrupt before the
-- receiver's own call of it switches the receiver out.
pub mod Invariant
pub mod Wakeup
mod Tests
use rust_os.Prelude.{◌≡◌, Bool, true, false, not, ◌&&◌, Option, none, some, if◌then◌else◌, set}

-- Where the receiver is in `wait_sleep`; `scheduling` is inside `run_scheduler`.
pub data Receiver (A : Type 0) : Type 0 where
  outside : Receiver A
  looping : Receiver A
  checking : Receiver A
  scheduling : Receiver A
  awakening : A → Receiver A
  returned : A → Receiver A

-- Where the sender is in `send`.
pub data Sender (A : Type 0) : Type 0 where
  sending : A → Sender A
  waking : A → Sender A
  sent : A → Sender A

-- `sleeping`: the receiver's desired state is `Sleeping`. `switched_out`: an interrupt has run the
-- scheduler while it was, so that the receiver waits for the scheduler to choose it.
pub record Channel (A : Type 0) : Type 0 where
  pub cell : Option A
  pub sleeping : Bool
  pub switched_out : Bool
  pub receiver : Receiver A
  pub sender : Sender A

module _ {A : Type 0} where
  -- `self.cell.get_once()`.
  unfoldable pub take_message : Option A → Channel A → Channel A
  take_message none s = record s { receiver = scheduling }
  take_message (some a) s = record s { cell = none; receiver = awakening a }

  unfoldable pub receiver_step : Receiver A → Channel A → Option (Channel A)
  receiver_step outside s = some (record s { receiver = looping })
  receiver_step looping s = some (record s { sleeping = true; receiver = checking })
  receiver_step checking s = some (take_message s.cell s)
  receiver_step scheduling s = if s.sleeping then none else some (record s { receiver = looping })
  receiver_step (awakening a) s = some (record s { sleeping = false; receiver = returned a })
  receiver_step (returned a) s = none

  -- The scheduler chooses a receiver that was switched out, which it does only when it is awake.
  unfoldable pub resume : Channel A → Option (Channel A)
  resume s = if s.sleeping then none else some (record s { switched_out = false })

  unfoldable pub wait_sleep : Channel A → Option (Channel A)
  wait_sleep s = if s.switched_out then resume s else receiver_step s.receiver s

  -- The end of an interrupt's handler, `run_scheduler_if_needed`, on a running receiver that is set
  -- to sleep: `NEEDS_RESCHEDULE` is set, and the receiver is switched out.
  unfoldable pub interrupt : Channel A → Option (Channel A)
  interrupt s =
      if s.sleeping && not s.switched_out then some (record s { switched_out = true }) else none

  -- `self.cell.set(message)`, which panics on a cell that is set.
  unfoldable pub set_cell : A → Option A → Channel A → Option (Channel A)
  set_cell a none s = some (record s { cell = some a; sender = waking a })
  set_cell a (some b) s = none

  unfoldable pub sender_step : Sender A → Channel A → Option (Channel A)
  sender_step (sending a) s = set_cell a s.cell s
  sender_step (waking a) s = some (record s { sleeping = false; sender = sent a })
  sender_step (sent a) s = none

  unfoldable pub send : Channel A → Option (Channel A)
  send s = sender_step s.sender s

  unfoldable pub once_channel : A → Channel A
  once_channel a = record {
    cell = none;
    sleeping = false;
    switched_out = false;
    receiver = outside;
    sender = sending a;
  }

  pub data Reach (start : Channel A) : Channel A → Type 0 where
    here : Reach start start
    waits : {s s' : Channel A} → Reach start s → wait_sleep s ≡ some s' → Reach start s'
    interrupts : {s s' : Channel A} → Reach start s → interrupt s ≡ some s' → Reach start s'
    sends : {s s' : Channel A} → Reach start s → send s ≡ some s' → Reach start s'
