-- ===== src/Sync/Mutex/Tests.antt =====
-- Two tasks at a mutex.
use rust_os.Prelude.{ℕ, ◌≡◌, refl, ◌≢◌, true, false, none, some, [], arith, ◌==◌, if◌then◌else◌}
use rust_os.Sync.WaitCell.{update}
use rust_os.Sync.Mutex.{
  outside, looping, scheduling, holding, Mutex, goto, set_sleeping, try_lock, task_step, step,
  new_mutex, Reach, here, then_step,
}
use rust_os.Sync.Mutex.Exclusion.{lock-exclusive, drop-misses}

abbrev next : ℕ → Mutex → Mutex
next t s = elim (step t s) [ none ↦ s | some s' ↦ s' ]

-- Task 1 has the guard, and task 2 has begun to call `lock`.
abbrev contended : Mutex
contended = record {
  inner = true;
  list_locked = false;
  waiting_tasks = [];
  sleeping = λ t. false;
  place = λ t. if t == 1 then holding else if t == 2 then looping else outside;
}

drop-misses_example :
    (s' : Mutex) × Reach contended s'
    × (s'.inner ≡ false)
    × (s'.list_locked ≡ false)
    × (s'.place 1 ≡ outside)
    × (s'.place 2 ≡ scheduling)
    × (step 2 s' ≡ none)
    × ((v : ℕ) → v ≢ 1 → v ≢ 2 → s'.place v ≡ contended.place v)
drop-misses_example = drop-misses contended 1 2 (omega arith) refl refl refl refl refl

abbrev locked : Mutex
locked = next 1 (next 1 (next 1 (next 1 (next 1 new_mutex))))

Reach-locked : Reach new_mutex locked
unfolding step task_step goto set_sleeping try_lock new_mutex update
Reach-locked =
    then_step 1 (then_step 1 (then_step 1 (then_step 1 (then_step 1 here refl) refl) refl) refl)
      refl

lock-exclusive_example : (◌≡◌ {A = ℕ} 1 1) × (locked.inner ≡ true)
unfolding step task_step goto set_sleeping try_lock new_mutex update
lock-exclusive_example = lock-exclusive locked 1 1 Reach-locked refl refl
