-- ===== src/Sync/Mutex/Exclusion.antt =====
-- At most one task is inside the mutex, and how a task can miss its wake-up.
use rust_os.Prelude.{
  ℕ, ◌≡◌, refl, sym, ap, subst, ◌∙◌, ◌≢◌, inl, inr, Bool, true, false, none, some, List, [], ◌∷◌,
  ◌++◌, arith, if◌then◌else◌, Bool-cases,
}
use rust_os.Sync.WaitCell.{update}
use rust_os.Sync.Mutex.{
  Place, outside, looping, registering, trying, scheduling, awakening, holding, waking, unlocking,
  Mutex, goto, set_sleeping, try_lock, wake_tasks, task_step, step, new_mutex, Reach, here,
  then_step,
}

-- A task that has the inner lock.
abbrev pub has_lock : Place → Bool
has_lock outside = false
has_lock looping = false
has_lock registering = false
has_lock trying = false
has_lock scheduling = false
has_lock awakening = true
has_lock holding = true
has_lock waking = true
has_lock unlocking = true

record Inv (s : Mutex) : Type 0 where
  locked : (t : ℕ) → has_lock (s.place t) ≡ true → s.inner ≡ true
  only_one : (t u : ℕ) → has_lock (s.place t) ≡ true → has_lock (s.place u) ≡ true → t ≡ u

Inv-new_mutex : Inv new_mutex
unfolding new_mutex
Inv-new_mutex = record { locked = λ t h. absurd (cc); only_one = λ t u h. absurd (cc) }

-- A step of `t` that neither takes nor gives the lock.
Inv-kept :
    (s s' : Mutex) (t : ℕ) (w : Place)
    → s'.inner ≡ s.inner
    → s'.place ≡ update s.place t w
    → has_lock w ≡ has_lock (s.place t)
    → Inv s
    → Inv s'
unfolding update
Inv-kept s s' t w inner place same i =
    let at : (u : ℕ) → has_lock (s'.place u) ≡ has_lock (s.place u) =
      λ (u : ℕ). ap (λ (f : ℕ → Place). has_lock (f u)) place ∙ ground (arith, same) in
    record {
      locked = λ u h. inner ∙ i.locked u (sym (at u) ∙ h);
      only_one = λ u v h k. i.only_one u v (sym (at u) ∙ h) (sym (at v) ∙ k);
    }

Inv-try_lock : (t : ℕ) (s : Mutex) → s.place t ≡ trying → Inv s → Inv (try_lock t s)
unfolding try_lock goto update
Inv-try_lock t s at i = elim (Bool-cases s.inner) [
  | inl held ↦
      let same : goto t scheduling s ≡ try_lock t s =
        ap
          (λ (b : Bool).
            if b then goto t scheduling s else goto t awakening (record s { inner = true }))
          (sym held) in
      subst Inv same
        (Inv-kept s (goto t scheduling s) t scheduling refl refl (sym (ap has_lock at)) i)
  | inr free ↦
      let same : goto t awakening (record s { inner = true }) ≡ try_lock t s =
        ap
          (λ (b : Bool).
            if b then goto t scheduling s else goto t awakening (record s { inner = true }))
          (sym free) in
      subst Inv same (record {
        locked = λ u h. refl;
        only_one = λ u v h k. ground (arith, i.locked u, i.locked v, free);
      })
]

Inv-wake_tasks :
    (t : ℕ) (l : List ℕ) (s : Mutex) → s.place t ≡ waking → Inv s → Inv (wake_tasks t l s)
unfolding wake_tasks goto set_sleeping
Inv-wake_tasks t [] s at i =
    Inv-kept s (goto t unlocking (record s { list_locked = false })) t unlocking refl refl
      (sym (ap has_lock at)) i
Inv-wake_tasks t (u ∷ us) s at i = record { locked = i.locked; only_one = i.only_one }

Inv-unlock :
    (t : ℕ) (s : Mutex)
    → s.place t ≡ unlocking
    → Inv s
    → Inv (goto t outside (record s { inner = false }))
unfolding goto update
Inv-unlock t s at i = record {
  locked = λ u h. absurd (ground (arith, h, at, i.only_one t u));
  only_one = λ u v h k. ground (arith, at, i.only_one t u, i.only_one t v);
}

Inv-step :
    (w : Place) (t : ℕ) (s s' : Mutex) → s.place t ≡ w → task_step w t s ≡ some s' → Inv s → Inv s'
unfolding task_step goto set_sleeping
Inv-step outside t s s' at e i =
    let same : goto t looping s ≡ s' = cc in
    subst Inv same (Inv-kept s (goto t looping s) t looping refl refl (sym (ap has_lock at)) i)
Inv-step looping t s s' at e i =
    let same : goto t registering (set_sleeping t true s) ≡ s' = cc in
    subst Inv same (
      Inv-kept s (goto t registering (set_sleeping t true s)) t registering refl refl
        (sym (ap has_lock at)) i)
Inv-step registering t s s' at e i = elim (Bool-cases s.list_locked) [
  | inl locked ↦ absurd (ground (arith, locked, e))
  | inr open_list ↦
      let new = goto t trying (record s { waiting_tasks = s.waiting_tasks ++ (t ∷ []) }) in
      let same : new ≡ s' = ground (arith, open_list, e) in
      subst Inv same (Inv-kept s new t trying refl refl (sym (ap has_lock at)) i)
]
Inv-step trying t s s' at e i =
    let same : try_lock t s ≡ s' = cc in subst Inv same (Inv-try_lock t s at i)
Inv-step scheduling t s s' at e i = elim (Bool-cases (s.sleeping t)) [
  | inl asleep ↦ absurd (ground (arith, asleep, e))
  | inr up ↦
      let same : goto t looping s ≡ s' = ground (arith, up, e) in
      subst Inv same (Inv-kept s (goto t looping s) t looping refl refl (sym (ap has_lock at)) i)
]
Inv-step awakening t s s' at e i =
    let same : goto t holding (set_sleeping t false s) ≡ s' = cc in
    subst Inv same (
      Inv-kept s (goto t holding (set_sleeping t false s)) t holding refl refl
        (sym (ap has_lock at)) i)
Inv-step holding t s s' at e i = elim (Bool-cases s.list_locked) [
  | inl locked ↦ absurd (ground (arith, locked, e))
  | inr open_list ↦
      let new = goto t waking (record s { list_locked = true }) in
      let same : new ≡ s' = ground (arith, open_list, e) in
      subst Inv same (Inv-kept s new t waking refl refl (sym (ap has_lock at)) i)
]
Inv-step waking t s s' at e i =
    let same : wake_tasks t s.waiting_tasks s ≡ s' = cc in
    subst Inv same (Inv-wake_tasks t s.waiting_tasks s at i)
Inv-step unlocking t s s' at e i =
    let same : goto t outside (record s { inner = false }) ≡ s' = cc in
    subst Inv same (Inv-unlock t s at i)

Inv-Reach : (s : Mutex) → Reach new_mutex s → Inv s
unfolding step
Inv-Reach s here = Inv-new_mutex
Inv-Reach s' (then_step {s} t r e) = Inv-step (s.place t) t s s' refl e (Inv-Reach s r)

-- In every interleaving of any number of tasks at most one has the lock, from its successful
-- `try_lock` to the end of its guard's drop, and while one has it the inner lock is held.
pub lock-exclusive :
    (s : Mutex) (t u : ℕ)
    → Reach new_mutex s
    → has_lock (s.place t) ≡ true
    → has_lock (s.place u) ≡ true
    → (t ≡ u) × (s.inner ≡ true)
lock-exclusive s t u r h k = let i = Inv-Reach s r in (i.only_one t u h k, i.locked t h)

step_at : (w : Place) (t : ℕ) (s : Mutex) → s.place t ≡ w → step t s ≡ task_step w t s
unfolding step
step_at w t s at = ap (λ (x : Place). task_step x t s) at

-- The guard's drop wakes the waiting tasks before it lets the inner lock go. So from every state in
-- which one task is about to drop its guard, no task waits, and another is about to call `lock` or to
-- try again, there is an interleaving after which the mutex is free, the first task is outside, and
-- the second sleeps and cannot take a step: only a later drop by yet another caller can wake it.
pub drop-misses :
    (s : Mutex) (t u : ℕ)
    → t ≢ u
    → s.place t ≡ holding
    → s.place u ≡ looping
    → s.inner ≡ true
    → s.list_locked ≡ false
    → s.waiting_tasks ≡ []
    → (s' : Mutex) × Reach s s'
      × (s'.inner ≡ false)
      × (s'.list_locked ≡ false)
      × (s'.place t ≡ outside)
      × (s'.place u ≡ scheduling)
      × (step u s' ≡ none)
      × ((v : ℕ) → v ≢ t → v ≢ u → s'.place v ≡ s.place v)
unfolding task_step goto set_sleeping try_lock wake_tasks update
drop-misses s t u ne at_t at_u held open_list nobody =
    let s1 = goto t waking (record s { list_locked = true }) in
    let s2 = goto t unlocking (record s1 { list_locked = false }) in
    let s3 = goto u registering (set_sleeping u true s2) in
    let s4 = goto u trying (record s3 { waiting_tasks = s3.waiting_tasks ++ (u ∷ []) }) in
    let s5 = goto u scheduling s4 in
    let s6 = goto t outside (record s5 { inner = false }) in
    let e1 : step t s ≡ some s1 = step_at holding t s at_t ∙ rw open_list in
    let e2 : step t s1 ≡ some s2 = step_at waking t s1 (ground arith) ∙ rw nobody refl in
    let e3 : step u s2 ≡ some s3 = step_at looping u s2 (ground (arith, ne, at_u)) in
    let e4 : step u s3 ≡ some s4 = step_at registering u s3 (ground arith) in
    let e5 : step u s4 ≡ some s5 = step_at trying u s4 (ground arith) ∙ rw held in
    let e6 : step t s5 ≡ some s6 = step_at unlocking t s5 (ground (arith, ne)) in
    let asleep : s6.sleeping u ≡ true = ground arith in
    let stuck : step u s6 ≡ none = step_at scheduling u s6 (ground (arith, ne)) ∙ rw asleep in
    (
      s6,
      then_step t
          (then_step u (then_step u (then_step u (then_step t (then_step t here e1) e2) e3) e4) e5)
          e6,
      refl,
      refl,
      ground arith,
      ground (arith, ne),
      stuck,
      λ v not_t not_u. ground (arith, not_t, not_u),
    )
