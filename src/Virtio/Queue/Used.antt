-- ===== src/Virtio/Queue/Used.antt =====
-- Processing the entries that the device has put into the used ring.
use rust_os.Prelude.{
  ℕ, zero, suc, ◌+◌, ◌-◌, ◌%◌, ◌^◌, ◌<◌, ◌≡◌, refl, ap, true, some, List, [], ◌∷◌, arith, ltb,
  length, get_elem?, get_elem?-some, ret,
}
use native.Mathlib.Nat.{mod-lt}
use mathlib.Core.Option
use rust_os.Virtio.Queue.{
  is_power_of_two, to_elem_index, VirtQueueUsedElem, VirtQueue, get_used_elem, get_used_ring_entry,
  used_entries, process_new_entries,
}
use rust_os.Virtio.Queue.Index.{pos, fits}

-- The device has put a 16-bit chain index into every entry of the used ring.
abbrev pub HasChainIds : List VirtQueueUsedElem → Type 0
HasChainIds ring = (i : ℕ) (e : VirtQueueUsedElem) → get_elem? ring i ≡ some e → e.id < 2 ^ 16

abbrev pub with_chain : VirtQueueUsedElem → VirtQueueUsedElem × ℕ
with_chain e = (e, e.id)

module _ (q : VirtQueue) (power : is_power_of_two (length q.used_ring.ring) ≡ true)
    (ids : HasChainIds q.used_ring.ring) where
  pub entry_at :
      (i : ℕ)
      → (e : VirtQueueUsedElem) × (get_elem? q.used_ring.ring (i % length q.used_ring.ring)
          ≡ some e)
        × (get_used_ring_entry q i ≡ ret (e, e.id))
  unfolding get_used_ring_entry get_used_elem to_elem_index
  entry_at i =
      let n = length q.used_ring.ring in
      let (e, at) = get_elem?-some q.used_ring.ring (i % n) (mod-lt i (pos n power)) in
      let small : ltb e.id (2 ^ 16) ≡ true = let h = ids (i % n) e at in ground arith in
      (e, at, rw (fits n power, power, at, small))

  pub used_entries_lem :
      (left i : ℕ)
      → (entries : List (VirtQueueUsedElem × ℕ)) × (used_entries q i left ≡ ret entries)
        × (length entries ≡ left)
        × ((j : ℕ)
            → j < left
            → get_elem? entries j
              ≡ Option.map with_chain
                  (get_elem? q.used_ring.ring ((i + j) % length q.used_ring.ring)))
  unfolding used_entries
  used_entries_lem zero i = ([], refl, refl, λ j h. absurd (omega arith))
  used_entries_lem (suc left) i =
      let (e, at, here) = entry_at i in
      let (rest, run, size, items) = used_entries_lem left (i + 1) in
      ((e, e.id) ∷ rest, rw (here, run), ap suc size, λ j h. item e rest at items j h)
    where
      item :
          (e : VirtQueueUsedElem) (rest : List (VirtQueueUsedElem × ℕ))
          → get_elem? q.used_ring.ring (i % length q.used_ring.ring) ≡ some e
          → ((j : ℕ)
              → j < left
              → get_elem? rest j
                ≡ Option.map with_chain
                    (get_elem? q.used_ring.ring ((i + 1 + j) % length q.used_ring.ring)))
          → (j : ℕ) → j < suc left
          → get_elem? ((e, e.id) ∷ rest) j
            ≡ Option.map with_chain (get_elem? q.used_ring.ring ((i + j) % length q.used_ring.ring))
      item e rest at items zero h = let same : i + 0 ≡ i = omega arith in rw (same, at)
      item e rest at items (suc j) h =
          let same : i + suc j ≡ i + 1 + j = omega arith in rw same (items j (omega arith))

  -- With a power-of-two ring of 16-bit chain indices, processing never panics. It handles, in order,
  -- as many entries as the used index lies above the last processed one (none if it lies below),
  -- reads the `j`-th of them at the last processed index plus `j` modulo the ring size, and then
  -- takes the used index as the last processed one.
  pub process_new_entries_lem :
      (entries : List (VirtQueueUsedElem × ℕ)) × (process_new_entries q
        ≡ ret (entries, record q { last_processed_used_index = q.used_ring.idx }))
      × (length entries ≡ q.used_ring.idx - q.last_processed_used_index)
      × ((j : ℕ)
          → j < q.used_ring.idx - q.last_processed_used_index
          → get_elem? entries j
            ≡ Option.map with_chain (
                get_elem? q.used_ring.ring
                  ((q.last_processed_used_index + j) % length q.used_ring.ring)))
  unfolding process_new_entries
  process_new_entries_lem =
      let (entries, run, size, items) =
        used_entries_lem (q.used_ring.idx - q.last_processed_used_index)
          q.last_processed_used_index in
      (entries, rw run, size, items)
