-- ===== src/Sched/Store.antt =====
-- The task table as a map, and how often an id occurs in a queue.
use rust_os.Prelude.{
  ℕ, suc, ◌+◌, ◌≤◌, ◌<◌, ◌≡◌, Bool, false, Option, none, some, List, [], ◌∷◌, ◌++◌, arith, ◌==◌,
  if◌then◌else◌,
}
use mathlib.Core.Option
use rust_os.Sched.Task.{Task, find, remove, update, is_killed, is_ready}

-- How often `x` occurs.
abbrev pub count : ℕ → List ℕ → ℕ
count x [] = 0
count x (y ∷ ys) = if x == y then suc (count x ys) else count x ys

abbrev pub Has : List Task → ℕ → Type 0
Has ts x = (t : Task) × (find ts x ≡ some t)

-- Every queued id is a task.
abbrev pub Present : List Task → List ℕ → Type 0
Present ts ids = (x : ℕ) → 0 < count x ids → Has ts x

abbrev pub Distinct : List ℕ → Type 0
Distinct ids = (x : ℕ) → count x ids ≤ 1

pub count-append : (x : ℕ) (xs ys : List ℕ) → count x (xs ++ ys) ≡ count x xs + count x ys
count-append x [] ys = omega arith
count-append x (z ∷ zs) ys = ground (arith, count-append x zs ys)

pub find-remove :
    (ts : List Task) (i x : ℕ) → find (remove ts i) x ≡ (if i == x then none else find ts x)
find-remove [] i x = ground arith
find-remove (t ∷ ts) i x = ground (arith, find-remove ts i x)

pub find-update :
    (ts : List Task) (i x : ℕ) (f : Task → Task)
    → ((t : Task) → (f t).id ≡ t.id)
    → find (update ts i f) x ≡ (if i == x then Option.map f (find ts x) else find ts x)
find-update [] i x f keeps = ground arith
find-update (t ∷ ts) i x f keeps = ground (arith, find-update ts i x f keeps, keeps t)

abbrev pub is_killed_at : Option Task → Bool
is_killed_at none = false
is_killed_at (some t) = is_killed t.desired_state

abbrev pub is_ready_at : Option Task → Bool
is_ready_at none = false
is_ready_at (some t) = is_ready t.desired_state
