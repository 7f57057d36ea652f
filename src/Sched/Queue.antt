-- ===== src/Sched/Queue.antt =====
-- The two loops over the run queue.
use rust_os.Prelude.{
  ℕ, ◌<◌, ◌≡◌, refl, sym, ap, subst, ◌∙◌, inl, inr, Bool, true, false, ◌&&◌, Option, none, some,
  List, [], ◌∷◌, ◌++◌, append-nil, append_assoc, arith, ℕ_discrete, ltb, if◌then◌else◌, Bool-cases,
  ret,
}
use rust_os.Sched.Task.{Task, Tasks, find, remove, delete_task, is_killed, is_ready}
use rust_os.Sched.Core.{remove_killed, pop_ready}
use rust_os.Sched.Store.{
  count, Present, Distinct, count-append, find-remove, is_killed_at, is_ready_at,
}

-- The queued ids whose tasks are not killed, in their order.
abbrev pub survivors : List Task → List ℕ → List ℕ
survivors ts [] = []
survivors ts (id ∷ ids) =
    let rest = survivors ts ids in if is_killed_at (find ts id) then rest else id ∷ rest

pub survivors-congr :
    (ts us : List Task) (ids : List ℕ)
    → ((x : ℕ) → 0 < count x ids → find us x ≡ find ts x)
    → survivors us ids ≡ survivors ts ids
survivors-congr ts us [] same = refl
survivors-congr ts us (id ∷ ids) same =
    let here = same id (ground arith) in
    rw (here, survivors-congr ts us ids (λ x h. same x (ground arith)))

pub count-survivors :
    (ts : List Task) (ids : List ℕ) (x : ℕ)
    → count x (survivors ts ids) ≡ (if is_killed_at (find ts x) then 0 else count x ids)
count-survivors ts [] x = ground arith
count-survivors ts (id ∷ ids) x = elim (ℕ_discrete x id) [
  | yes same ↦ rw same (ground (arith, count-survivors ts ids id))
  | no ne ↦ ground (arith, count-survivors ts ids x)
]

-- What `remove_killed` leaves in the table.
abbrev pub Removed : List Task → List Task → List ℕ → Type 0
Removed ts us ids =
    (x : ℕ)
    → find us x ≡ (if is_killed_at (find ts x) && ltb 0 (count x ids) then none else find ts x)

module _ (ts : Tasks) (id : ℕ) (ids : List ℕ) (t : Task) (at : find ts.tasks id ≡ some t)
    (us : Tasks) where
  step_killed :
      is_killed t.desired_state ≡ true
      → remove_killed ids (record ts { tasks = remove ts.tasks id })
        ≡ ret (survivors ts.tasks ids, us)
      → remove_killed (id ∷ ids) ts ≡ ret (survivors ts.tasks (id ∷ ids), us)
  unfolding remove_killed delete_task
  step_killed dead run = rw (at, dead, run)

  step_alive :
      is_killed t.desired_state ≡ false
      → remove_killed ids ts ≡ ret (survivors ts.tasks ids, us)
      → remove_killed (id ∷ ids) ts ≡ ret (survivors ts.tasks (id ∷ ids), us)
  unfolding remove_killed
  step_alive alive run = rw (at, alive, run)

  Removed-killed :
      is_killed t.desired_state ≡ true
      → Removed (remove ts.tasks id) us.tasks ids
      → Removed ts.tasks us.tasks (id ∷ ids)
  Removed-killed dead left x = elim (ℕ_discrete id x) [
    | yes same ↦ rw (← same, at, dead) (ground (arith, left id, find-remove ts.tasks id id))
    | no ne ↦
        let away : find (remove ts.tasks id) x ≡ find ts.tasks x =
          ground (arith, find-remove ts.tasks id x) in
        let counts : count x (id ∷ ids) ≡ count x ids = ground arith in
        rw counts (rw (← away) (left x))
  ]

  Removed-alive :
      is_killed t.desired_state ≡ false
      → Removed ts.tasks us.tasks ids
      → Removed ts.tasks us.tasks (id ∷ ids)
  Removed-alive alive left x = elim (ℕ_discrete id x) [
    | yes same ↦ rw (← same, at, alive) (left id ∙ rw (at, alive))
    | no ne ↦ let counts : count x (id ∷ ids) ≡ count x ids = ground arith in rw counts (left x)
  ]

remove_killed-nil : (ts : Tasks) → remove_killed [] ts ≡ ret ([], ts)
unfolding remove_killed
remove_killed-nil ts = refl

find-remove_other :
    (ts : List Task) (id : ℕ) (ids : List ℕ) (x : ℕ)
    → count id ids ≡ 0
    → 0 < count x ids
    → find (remove ts id) x ≡ find ts x
find-remove_other ts id ids x fresh h = elim (ℕ_discrete id x) [
  | yes same ↦ absurd (omega (arith, fresh, ap (λ y. count y ids) same))
  | no ne ↦ ground (arith, find-remove ts id x)
]

-- With distinct queued tasks, removing the killed ones never panics: the others stay queued in their
-- order, and exactly the queued killed tasks leave the table.
pub remove_killed_lem :
    (ids : List ℕ) (ts : Tasks)
    → Present ts.tasks ids
    → Distinct ids
    → (us : Tasks) × (remove_killed ids ts ≡ ret (survivors ts.tasks ids, us))
      × Removed ts.tasks us.tasks ids
remove_killed_lem [] ts present distinct = (ts, remove_killed-nil ts, λ x. ground arith)
remove_killed_lem (id ∷ ids) ts present distinct =
    let (t, at) = present id (ground arith) in
    let fresh : count id ids ≡ 0 = ground (arith, distinct id) in
    let distinct' : Distinct ids = λ x. ground (arith, distinct x) in
    let present' : Present ts.tasks ids = λ x h. present x (ground arith) in
    elim (Bool-cases (is_killed t.desired_state)) [
      | inl dead ↦
          let rest : Tasks = record ts { tasks = remove ts.tasks id } in
          let kept : (x : ℕ) → 0 < count x ids → find rest.tasks x ≡ find ts.tasks x =
            λ x. find-remove_other ts.tasks id ids x fresh in
          let (us, run, left) =
            remove_killed_lem ids rest (λ x h. ((present' x h).0, kept x h ∙ (present' x h).1))
              distinct' in
          let run' = run ∙ ap (λ l. ret (l, us)) (survivors-congr ts.tasks rest.tasks ids kept) in
          (us, step_killed ts id ids t at us dead run', Removed-killed ts id ids t at us dead left)
      | inr alive ↦
          let (us, run, left) = remove_killed_lem ids ts present' distinct' in
          (us, step_alive ts id ids t at us alive run, Removed-alive ts id ids t at us alive left)
    ]

-- No queued task is ready.
abbrev pub NoneReady : List Task → List ℕ → Type 0
NoneReady ts ids = (x : ℕ) → 0 < count x ids → is_ready_at (find ts x) ≡ false

-- The outcome of the search for a ready task: there is none and the queue is as it was, or the first
-- ready one is taken and what was skipped goes to the end.
pub data Popped (ts : List Task) (ids : List ℕ) (o : Option ℕ) (q : List ℕ) : Type 0 where
  idle : o ≡ none → q ≡ ids → NoneReady ts ids → Popped ts ids o q
  taken :
      (before : List ℕ) (id : ℕ) (after : List ℕ)
      → o ≡ some id
      → ids ≡ before ++ id ∷ after
      → q ≡ after ++ before
      → NoneReady ts before
      → is_ready_at (find ts id) ≡ true
      → Popped ts ids o q

NoneReady-append :
    (ts : List Task) (xs : List ℕ) (id : ℕ)
    → NoneReady ts xs
    → is_ready_at (find ts id) ≡ false
    → NoneReady ts (xs ++ id ∷ [])
NoneReady-append ts xs id rest here x h = elim (ℕ_discrete x id) [
  | yes same ↦ rw same here
  | no ne ↦ rest x (ground (arith, count-append x xs (id ∷ [])))
]

module _ (ts : Tasks) (id : ℕ) (ids skipped : List ℕ) (t : Task)
    (at : find ts.tasks id ≡ some t) where
  pop_here :
      is_ready t.desired_state ≡ true
      → pop_ready ts (id ∷ ids) skipped ≡ ret (some id, ids ++ skipped)
  unfolding pop_ready
  pop_here ready = rw (at, ready)

  pop_later :
      is_ready t.desired_state ≡ false
      → pop_ready ts (id ∷ ids) skipped ≡ pop_ready ts ids (skipped ++ id ∷ [])
  unfolding pop_ready
  pop_later waits = rw (at, waits)

  ready_iff : (b : Bool) → is_ready t.desired_state ≡ b → is_ready_at (find ts.tasks id) ≡ b
  ready_iff b h = rw at h

pop_ready_from :
    (ids : List ℕ) (ts : Tasks) (skipped : List ℕ)
    → Present ts.tasks ids
    → NoneReady ts.tasks skipped
    → (o : Option ℕ) × (q : List ℕ) × (pop_ready ts ids skipped ≡ ret (o, q))
      × Popped ts.tasks (skipped ++ ids) o q
unfolding pop_ready
pop_ready_from [] ts skipped present none_ready =
    (none, skipped, refl, idle refl (sym (append-nil skipped)) (rw (append-nil skipped) none_ready))
pop_ready_from (id ∷ ids) ts skipped present none_ready =
    let (t, at) = present id (ground arith) in
    elim (Bool-cases (is_ready t.desired_state)) [
      | inl ready ↦ (
        some id,
        ids ++ skipped,
        pop_here ts id ids skipped t at ready,
        taken skipped id ids refl refl refl none_ready
            (ready_iff ts id ids skipped t at true ready),
      )
      | inr waits ↦
          let (o, q, run, popped) =
            pop_ready_from ids ts (skipped ++ id ∷ []) (λ x h. present x (ground arith))
              (NoneReady-append ts.tasks skipped id none_ready
                (ready_iff ts id ids skipped t at false waits)) in
          (
            o,
            q,
            pop_later ts id ids skipped t at waits ∙ run,
            subst (λ l. Popped ts.tasks l o q) (append_assoc skipped (id ∷ []) ids) popped,
          )
    ]

pub pop_ready_lem :
    (ids : List ℕ) (ts : Tasks)
    → Present ts.tasks ids
    → (o : Option ℕ) × (q : List ℕ) × (pop_ready ts ids [] ≡ ret (o, q)) × Popped ts.tasks ids o q
pop_ready_lem ids ts present = pop_ready_from ids ts [] present (λ x h. absurd (omega arith))
