-- ===== src/Virtio/Queue/Complete.antt =====
-- A buffer goes to the device with its datum, and comes back with it.
use rust_os.Prelude.{
  ℕ, zero, suc, ◌+◌, ◌-◌, ◌%◌, ◌^◌, ◌≤◌, ◌<◌, ◌≡◌, refl, true, false, Option, none, some, List, [],
  ◌∷◌, arith, ltb, ◌==◌, length, get_elem?, set, length-set, get_elem?-set_self, ret,
}
use native.Mathlib.Nat.{mod-lt}
use rust_os.Virtio.Queue.{
  is_power_of_two, increment, ChainedVirtQueueDescriptorElem, VirtQueueUsedElem, VirtQueueAvailRing,
  VirtQueueData, VirtQueueDescriptorTable, add_entry, to_elem_index, get_used_elem,
  get_used_ring_entry, used_entries, process_new_entries, add_descriptor, add_buffer, take_data,
  process_new_data,
}
use rust_os.Virtio.Queue.Index.{pos, fits}
use rust_os.Virtio.Queue.Chain.{size, slot, IsPlain, add_all-Added}

-- The device finishes the chain `id`: it writes the next used entry and advances the used index.
abbrev pub device_finishes : {D : Type 0} → VirtQueueData D → VirtQueueUsedElem → VirtQueueData D
device_finishes v elem = record v {
  queue = record (v.queue) {
    used_ring = record {
      idx = increment v.queue.used_ring.idx;
      ring =
          set v.queue.used_ring.ring (v.queue.used_ring.idx % length v.queue.used_ring.ring) elem;
    };
  };
}

-- A queue of one size throughout, with a free chain of descriptors from the counter on.
pub record Ready {D : Type 0} (v : VirtQueueData D) (e : ChainedVirtQueueDescriptorElem)
    (es : List ChainedVirtQueueDescriptorElem) : Type 0 where
  pub power : is_power_of_two (size v.queue.descriptors) ≡ true
  pub data_size : length v.data_of ≡ size v.queue.descriptors
  pub avail_size : length v.queue.avail_ring.ring ≡ size v.queue.descriptors
  pub used_size : length v.queue.used_ring.ring ≡ size v.queue.descriptors
  pub room : length (e ∷ es) ≤ size v.queue.descriptors
  pub plain : IsPlain (e ∷ es)
  pub no_data : get_elem? v.data_of (slot v.queue.descriptors 0) ≡ some none

-- Adding an entry succeeds, and puts it where the available index points.
add_entry_lem :
    (a : VirtQueueAvailRing) (i : ℕ)
    → is_power_of_two (length a.ring) ≡ true
    → add_entry a i
      ≡ ret (record { idx = increment a.idx; ring = set a.ring (a.idx % length a.ring) i })
unfolding add_entry
add_entry_lem a i power =
    let n = length a.ring in
    let positive = pos n power in
    let nonzero : (n == 0) ≡ false = ground arith in
    let inside : ltb (a.idx % n) n ≡ true = let h = mod-lt a.idx positive in ground arith in
    rw (fits n power, nonzero, inside)

abbrev buffer_added :
    {D : Type 0} → VirtQueueData D → VirtQueueDescriptorTable → D → VirtQueueData D
buffer_added v table datum = record {
  data_of = set v.data_of (slot v.queue.descriptors 0) (some datum);
  queue = record (v.queue) {
    descriptors = table;
    avail_ring = record {
      idx = increment v.queue.avail_ring.idx;
      ring =
          set v.queue.avail_ring.ring (v.queue.avail_ring.idx % length v.queue.avail_ring.ring)
            (slot v.queue.descriptors 0);
    };
  };
}

-- A slot that is emptied again was as before if it was empty.
set-set_back :
    {D : Type 0} (xs : List D) (i : ℕ) (x y : D)
    → get_elem? xs i ≡ some x
    → set (set xs i y) i x ≡ xs
set-set_back [] i x y h = refl
set-set_back (z ∷ xs) zero x y h = let same : z ≡ x = cc in rw same
set-set_back (z ∷ xs) (suc i) x y h = rw (set-set_back xs i x y h)

-- Processing when exactly one entry is new.
process-one :
    {D : Type 0} (w : VirtQueueData D) (elem : VirtQueueUsedElem) (o : Option D)
    → is_power_of_two (length w.queue.used_ring.ring) ≡ true
    → w.queue.used_ring.idx ≡ w.queue.last_processed_used_index + 1
    → get_elem? w.queue.used_ring.ring
        (w.queue.last_processed_used_index % length w.queue.used_ring.ring)
      ≡ some elem
    → elem.id < 2 ^ 16
    → get_elem? w.data_of elem.id ≡ some o
    → process_new_data w
      ≡ ret (
        (elem, o) ∷ [],
        record {
          data_of = set w.data_of elem.id none;
          queue = record (w.queue) { last_processed_used_index = w.queue.used_ring.idx };
        },
      )
unfolding process_new_data process_new_entries used_entries get_used_ring_entry get_used_elem
    to_elem_index take_data
process-one w elem o power one at small slot_holds =
    let n = length w.queue.used_ring.ring in
    let left : w.queue.used_ring.idx - w.queue.last_processed_used_index ≡ 1 = omega arith in
    let id_ok : ltb elem.id (2 ^ 16) ≡ true = ground arith in
    rw (left, fits n power, power, at, id_ok, slot_holds)

-- Processing when the used index does not lie above the last processed one.
process-none :
    {D : Type 0} (w : VirtQueueData D)
    → w.queue.used_ring.idx ≤ w.queue.last_processed_used_index
    → process_new_data w
      ≡ ret (
        [],
        record w { queue = record (w.queue) { last_processed_used_index = w.queue.used_ring.idx } },
      )
unfolding process_new_data process_new_entries used_entries take_data
process-none w h =
    let nothing : w.queue.used_ring.idx - w.queue.last_processed_used_index ≡ 0 = omega arith in
    rw nothing refl

module _ {D : Type 0} (v : VirtQueueData D) (e : ChainedVirtQueueDescriptorElem)
    (es : List ChainedVirtQueueDescriptorElem) (datum : D) (ready : Ready v e es) where
  add_buffer_lem :
      (table : VirtQueueDescriptorTable) × (add_descriptor v.queue.descriptors (e ∷ es)
        ≡ ret (slot v.queue.descriptors 0, table))
      × (add_buffer v (e ∷ es) datum ≡ ret (buffer_added v table datum))
  unfolding add_buffer add_descriptor
  add_buffer_lem =
      let (table, run, added) =
        add_all-Added (e ∷ es) v.queue.descriptors none none ready.power ready.room ready.plain
          tt in
      let ring_power : is_power_of_two (length v.queue.avail_ring.ring) ≡ true =
        rw ready.avail_size ready.power in
      let entry = add_entry_lem v.queue.avail_ring (slot v.queue.descriptors 0) ring_power in
      (table, rw run, rw (run, ready.no_data, entry))

  -- On a ready queue that has processed every used entry, adding a buffer with a datum never
  -- panics, and offers the chain's first descriptor to the device at the available index. When the
  -- device then finishes that chain, there are two cases. If its used index does not wrap, the next
  -- processing hands back exactly this entry with this datum, and leaves the data as they were before.
  -- If the used index wraps to zero, the next processing hands back nothing and counts the entry as
  -- processed, and the datum stays in its slot.
  pub process-add_buffer :
      (len : ℕ)
      → v.queue.last_processed_used_index ≡ v.queue.used_ring.idx
      → (v' : VirtQueueData D) × (add_buffer v (e ∷ es) datum ≡ ret v')
        × (get_elem? v'.queue.avail_ring.ring
              (v.queue.avail_ring.idx % length v'.queue.avail_ring.ring)
            ≡ some (slot v.queue.descriptors 0))
        × (v.queue.used_ring.idx + 1 < 2 ^ 16
            → (w : VirtQueueData D) × (process_new_data
                  (device_finishes v' (record { id = slot v.queue.descriptors 0; len = len }))
                ≡ ret ((record { id = slot v.queue.descriptors 0; len = len }, some datum) ∷ [], w))
              × (w.data_of ≡ v.data_of))
        × (v.queue.used_ring.idx + 1 ≡ 2 ^ 16
            → (w : VirtQueueData D) × (process_new_data
                  (device_finishes v' (record { id = slot v.queue.descriptors 0; len = len }))
                ≡ ret ([], w))
              × (w.queue.last_processed_used_index ≡ w.queue.used_ring.idx)
              × (get_elem? w.data_of (slot v.queue.descriptors 0) ≡ some (some datum)))
  unfolding increment
  process-add_buffer len current =
      let (table, run, added) = add_buffer_lem in
      let v' = buffer_added v table datum in
      let first = slot v.queue.descriptors 0 in
      let elem : VirtQueueUsedElem = record { id = first; len = len } in
      let n = size v.queue.descriptors in
      let positive = pos n ready.power in
      let first_lt : first < n = mod-lt (v.queue.descriptors.raw_next_index + 0) positive in
      let narrow : n < 2 ^ 16 = omega (arith, fits n ready.power) in
      let here = get_elem?-set_self v.data_of first (some datum) (rw ready.data_size first_lt) in
      let used_len =
        length-set v.queue.used_ring.ring (v.queue.used_ring.idx % length v.queue.used_ring.ring)
          elem in
      let avail_len =
        length-set v.queue.avail_ring.ring (v.queue.avail_ring.idx % length v.queue.avail_ring.ring)
          first in
      (
        v',
        added,
        rw avail_len (
            get_elem?-set_self v.queue.avail_ring.ring _ first
              (rw ready.avail_size (mod-lt v.queue.avail_ring.idx positive))),
        λ no_wrap. (
          _,
          process-one (device_finishes v' elem) elem (some datum)
              (rw (used_len, ready.used_size) ready.power) (omega arith)
              (rw (used_len, current)
                (get_elem?-set_self v.queue.used_ring.ring _ elem
                  (rw ready.used_size (mod-lt v.queue.used_ring.idx positive))))
              (omega arith) here,
          set-set_back v.data_of first none (some datum) ready.no_data,
        ),
        λ wraps. (_, process-none (device_finishes v' elem) (omega arith), refl, here),
      )
