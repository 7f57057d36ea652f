-- ===== src/Virtio/Queue/Walk.antt =====
-- The chain iterator, on what `add_descriptor` left in the table.
use rust_os.Prelude.{
  ℕ, suc, ◌≤◌, ◌<◌, ◌≡◌, refl, ◌∙◌, ◌≢◌, true, false, none, some, List, [], ◌∷◌, arith, ◌==◌,
  length, get_elem?, ret,
}
use rust_os.Virtio.Queue.{
  is_power_of_two, ChainedVirtQueueDescriptorElem, RawVirtQueueDescriptor, VirtQueueDescriptorTable,
  raw, link, add_descriptor, chain_next, chain,
}
use rust_os.Virtio.Queue.Chain.{size, slot, node, is_last, IsPlain, add_all-Added}

-- The elements with `next` set on all but the last, as they come back from the table.
abbrev pub chained : List ChainedVirtQueueDescriptorElem → List ChainedVirtQueueDescriptorElem
chained [] = []
chained (e ∷ []) = e ∷ []
chained (e ∷ d ∷ es) = record e { flags = record (e.flags) { next = true } } ∷ chained (d ∷ es)

-- The table holds the elements of a list at the slots that `at` names, one pointing to the next.
abbrev HoldsAt :
    List RawVirtQueueDescriptor → (ℕ → ℕ) → List ChainedVirtQueueDescriptorElem → Type 0
HoldsAt ds at es =
    (j : ℕ) (e : ChainedVirtQueueDescriptorElem)
    → get_elem? es j ≡ some e
    → get_elem? ds (at j) ≡ some (node e (is_last es j) (at (suc j)))

later :
    (ds : List RawVirtQueueDescriptor) (at : ℕ → ℕ) (e : ChainedVirtQueueDescriptorElem)
    (es : List ChainedVirtQueueDescriptorElem)
    → HoldsAt ds at (e ∷ es)
    → HoldsAt ds (λ j. at (suc j)) es
later ds at e es holds j d h =
    let test : (suc (length es) == suc (suc j)) ≡ (length es == suc j) = ground arith in
    rw (← test) (holds (suc j) d h)

chain_lem :
    (es : List ChainedVirtQueueDescriptorElem) (e : ChainedVirtQueueDescriptorElem)
    (ds : List RawVirtQueueDescriptor) (at : ℕ → ℕ)
    → IsPlain (e ∷ es)
    → HoldsAt ds at (e ∷ es)
    → chain (length (e ∷ es)) ds (some (at 0)) ≡ ret (some (chained (e ∷ es)))
unfolding chain chain_next
chain_lem [] e ds at plain holds =
    let here = holds 0 e refl in let stop = plain.1 in simp (here, stop) refl
chain_lem (d ∷ es) e ds at plain holds =
    let test : (suc (suc (length es)) == 1) ≡ false = ground arith in
    let here : get_elem? ds (at 0) ≡ some (link (at 1) (raw e)) = holds 0 e refl ∙ rw test in
    let rest = chain_lem es d ds (λ j. at (suc j)) plain.2 (later ds at e (d ∷ es) holds) in
    rw (here, rest)

-- Adding a nonempty chain of plain descriptors that fits into a table of a power-of-two size never
-- panics. Then the iterator from the returned index yields these descriptors in their order and
-- ends, and every slot of the table that the chain does not take is as before.
pub chain-add_descriptor :
    (t : VirtQueueDescriptorTable) (e : ChainedVirtQueueDescriptorElem)
    (es : List ChainedVirtQueueDescriptorElem)
    → is_power_of_two (size t) ≡ true
    → length (e ∷ es) ≤ size t
    → IsPlain (e ∷ es)
    → (first : ℕ) × (t' : VirtQueueDescriptorTable) × (add_descriptor t (e ∷ es) ≡ ret (first, t'))
      × (chain (length (e ∷ es)) t'.descriptors (some first) ≡ ret (some (chained (e ∷ es))))
      × (size t' ≡ size t)
      × ((q : ℕ)
          → ((j : ℕ) → j < length (e ∷ es) → q ≢ slot t j)
          → get_elem? t'.descriptors q ≡ get_elem? t.descriptors q)
unfolding add_descriptor
chain-add_descriptor t e es power room plain =
    let (t', run, added) = add_all-Added (e ∷ es) t none none power room plain tt in
    (
      slot t 0,
      t',
      rw run,
      chain_lem es e t'.descriptors (slot t) plain added.entries,
      added.same_size,
      λ q away. added.others q away (λ same. absurd (cc)),
    )
