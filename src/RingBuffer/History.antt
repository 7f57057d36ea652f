-- ===== src/RingBuffer/History.antt =====
-- The ring after any history of pushes.
use rust_os.Prelude.{
  ℕ, suc, ◌<◌, ◌≡◌, refl, subst, List, [], ◌∷◌, arith, length, get_elem?, take, Exec, ret, ◌>>=◌,
}
use rust_os.RingBuffer.{RingBuffer, capacity, new, len, push, get, collect}
use rust_os.RingBuffer.Refine.{
  Refines, capacity-new, new-Refines, push-Refines, get_lem, len_lem, collect_lem,
}

-- A history of pushes.
unfoldable pub push_all {ℓ} : {A : Type ℓ} → List A → RingBuffer A → Exec (RingBuffer A)
push_all [] r = ret r
push_all (a ∷ more) r = push r a >>= λ r'. push_all more r'

unfoldable pub latest {ℓ} : {A : Type ℓ} → ℕ → List A → List A → List A
latest n [] q = q
latest n (a ∷ more) q = latest n more (take n (a ∷ q))

module _ {ℓ} {A : Type ℓ} where
  push_all-Refines :
      (more : List A) (r : RingBuffer A) (q : List A)
      → Refines r q
      → (r' : RingBuffer A) × (push_all more r ≡ ret r') × Refines r' (latest (capacity r) more q)
  unfolding push_all latest
  push_all-Refines [] r q v = (r, refl, v)
  push_all-Refines (a ∷ more) r q v =
      let (r', e, size, v') = push-Refines r q a v in
      let (r'', e', v'') = push_all-Refines more r' (take (capacity r) (a ∷ q)) v' in
      (r'', rw e e', subst (λ n. Refines r'' (latest n more (take (capacity r) (a ∷ q)))) size v'')

  -- After any pushes into a new ring of at least one slot, no push has panicked, and `get`, `len`
  -- and the iterator read the latest `N` elements, the latest first.
  pub push_all-new :
      (n : ℕ) (more : List A) (i : ℕ)
      → 0 < n
      → (r : RingBuffer A) × (push_all more (new n) ≡ ret r)
        × (get r i ≡ ret (get_elem? (latest n more []) i))
        × (len r ≡ ret (length (latest n more [])))
        × (collect (suc (length (latest n more []))) r 0 ≡ ret (latest n more []))
  push_all-new n more i pos =
      let (r, e, v) = push_all-Refines more (new n) [] (new-Refines n pos) in
      let size : capacity {A = A} (new n) ≡ n = capacity-new A n in
      let v' = subst (λ m. Refines r (latest m more [])) size v in
      let q = latest n more [] in
      (r, e, get_lem r q i v', len_lem r q v', collect_lem r q (length q) 0 v' (omega arith))
