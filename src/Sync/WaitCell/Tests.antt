-- ===== src/Sync/WaitCell/Tests.antt =====
-- A task that registers, and sleeps before the value is sent.
use rust_os.Prelude.{ℕ, zero, suc, ◌≡◌, refl, true, false, Option, none, some}
use rust_os.Sync.WaitCell.{
  WaitCell, update, goto, set_sleeping, after_check, waiter_step, wait_sleep, set_cell, drain_step,
  sender_step, send_all_consumers, new_cell, Reach, here, waits, sends, registering,
}
use rust_os.Sync.WaitCell.Wakeups.{is_asleep, Returns, wait_sleep-Returns}
use rust_os.Sync.WaitCell.Invariant.{is_scheduling, is_sent}
use rust_os.Sync.WaitCell.LostWakeup.{wait_sleep-lost}

-- Runs a step that is possible.
abbrev next : WaitCell ℕ → Option (WaitCell ℕ) → WaitCell ℕ
next s none = s
next s (some s') = s'

abbrev task_steps : ℕ → WaitCell ℕ → WaitCell ℕ
task_steps zero s = s
task_steps (suc n) s = let s' = task_steps n s in next s' (wait_sleep 3 s')

abbrev sender_steps : ℕ → WaitCell ℕ → WaitCell ℕ
sender_steps zero s = s
sender_steps (suc n) s = let s' = sender_steps n s in next s' (send_all_consumers s')

abbrev asleep : WaitCell ℕ
asleep = task_steps 4 (new_cell 7)

abbrev awake : WaitCell ℕ
awake = sender_steps 4 asleep

Reach-awake : Reach (new_cell 7) awake
unfolding new_cell wait_sleep waiter_step goto set_sleeping update after_check set_cell drain_step
    sender_step send_all_consumers
Reach-awake =
    sends
      (sends
        (sends (sends (waits 3 (waits 3 (waits 3 (waits 3 here refl) refl) refl) refl) refl) refl)
        refl)
      refl

wait_sleep-Returns_example :
    (is_scheduling (awake.waiter 3) ≡ true → awake.sleeping 3 ≡ false)
    × (is_asleep 3 awake ≡ false → Returns 7 3 awake)
unfolding new_cell wait_sleep waiter_step goto set_sleeping update after_check set_cell drain_step
    sender_step send_all_consumers
wait_sleep-Returns_example = wait_sleep-Returns 7 awake 3 Reach-awake refl

wait_sleep-lost_example :
    (s : WaitCell ℕ) × Reach (new_cell 7) s
    × (is_sent s.sender ≡ true)
    × ((s' : WaitCell ℕ) → Reach s s' → (s'.waiter 3 ≡ registering) × (is_asleep 3 s' ≡ true))
wait_sleep-lost_example = wait_sleep-lost 7 3
