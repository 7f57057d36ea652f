-- ===== src/Virtio/Queue.antt =====
-- kernel/src/virtio/queue.rs: split virtqueues. The rings and the descriptor table are lists; what
-- the device writes to the used ring is part of the state that an operation is given.
pub mod Index
pub mod Chain
pub mod Walk
pub mod Used
pub mod Complete
pub mod Allocate
mod Tests
use rust_os.Prelude.{
  ℕ, zero, suc, ◌+◌, ◌-◌, ◌%◌, ◌^◌, Bool, true, false, not, ◌||◌, Option, none, some, List, [], ◌∷◌,
  ltb, ◌==◌, if◌then◌else◌, length, set, Exec, ret, panic, assert, expect, rem_u64, ◌>>=◌, ◌>>◌,
}
use rust_os.Registers.{read, write, modify_mut}

-- `WrappingIndex` and `DescIndex` are 16-bit numbers.
unfoldable pub increment : ℕ → ℕ
increment i = (i + 1) % 2 ^ 16

-- `u16::is_power_of_two`.
unfoldable pub is_power_below : ℕ → ℕ → Bool
is_power_below zero n = false
is_power_below (suc k) n = n == 2 ^ k || is_power_below k n

abbrev pub is_power_of_two : ℕ → Bool
is_power_of_two = is_power_below 16

unfoldable pub to_elem_index : ℕ → ℕ → Exec ℕ
to_elem_index i queue_size = do assert (is_power_of_two queue_size); ret (i % queue_size)

pub record VirtQueueDescriptorFlags : Type 0 where
  pub next : Bool
  pub device_write : Bool
  pub indirect : Bool

pub record ChainedVirtQueueDescriptorElem : Type 0 where
  pub addr : ℕ
  pub len : ℕ
  pub flags : VirtQueueDescriptorFlags

pub record RawVirtQueueDescriptor : Type 0 where
  pub addr : ℕ
  pub len : ℕ
  pub flags : VirtQueueDescriptorFlags
  pub next : ℕ

pub record VirtQueueDescriptorTable : Type 0 where
  pub raw_next_index : ℕ
  pub descriptors : List RawVirtQueueDescriptor

-- The index handed out, and the table with the counter advanced.
abbrev pub next_index : VirtQueueDescriptorTable → ℕ × VirtQueueDescriptorTable
next_index t = (t.raw_next_index, record t { raw_next_index = (t.raw_next_index + 1) % 2 ^ 16 })

-- What the previous descriptor becomes: it points to this one.
abbrev pub link : ℕ → RawVirtQueueDescriptor → RawVirtQueueDescriptor
link idx d = record d { flags = record (d.flags) { next = true }; next = idx }

unfoldable pub link_previous :
    Option ℕ → ℕ → List RawVirtQueueDescriptor → Exec (List RawVirtQueueDescriptor)
link_previous none idx descriptors = ret descriptors
link_previous (some prev) idx descriptors = modify_mut descriptors prev (link idx)

abbrev pub raw : ChainedVirtQueueDescriptorElem → RawVirtQueueDescriptor
raw desc = record { addr = desc.addr; len = desc.len; flags = desc.flags; next = 0 }

abbrev pub get_or_insert : Option ℕ → ℕ → Option ℕ
get_or_insert none idx = some idx
get_or_insert (some first) idx = some first

-- The loop of `add_descriptor`, with `first_idx` and `prev_idx`.
unfoldable pub add_all :
    List ChainedVirtQueueDescriptorElem
    → Option ℕ
    → Option ℕ
    → VirtQueueDescriptorTable
    → Exec (Option ℕ × VirtQueueDescriptorTable)
add_all [] first_idx prev_idx t = ret (first_idx, t)
add_all (desc ∷ rest) first_idx prev_idx t = do
  idx ← to_elem_index t.raw_next_index (length t.descriptors % 2 ^ 16)
  linked ← link_previous prev_idx idx t.descriptors
  assert (not desc.flags.indirect)
  written ← write linked idx (raw desc)
  add_all rest (get_or_insert first_idx idx) (some idx)
      (record t { raw_next_index = (t.raw_next_index + 1) % 2 ^ 16; descriptors = written })

unfoldable pub add_descriptor :
    VirtQueueDescriptorTable
    → List ChainedVirtQueueDescriptorElem
    → Exec (ℕ × VirtQueueDescriptorTable)
add_descriptor t descriptors = do
  (first_idx, t') ← add_all descriptors none none t
  first ← expect first_idx
  ret (first, t')

-- `VirtQueueDescriptorChainIterator::next`: the item and the next index.
unfoldable pub chain_next :
    List RawVirtQueueDescriptor → ℕ → Exec (ChainedVirtQueueDescriptorElem × Option ℕ)
chain_next descriptors current_index = do
  descriptor ← read descriptors current_index
  ret (
    record { addr = descriptor.addr; len = descriptor.len; flags = descriptor.flags },
    if descriptor.flags.next then some descriptor.next else none,
  )

-- A loop over the iterator, with fuel; `none` when the fuel runs out.
unfoldable pub chain :
    ℕ → List RawVirtQueueDescriptor → Option ℕ → Exec (Option (List ChainedVirtQueueDescriptorElem))
chain fuel descriptors none = ret (some [])
chain zero descriptors (some i) = ret none
chain (suc fuel) descriptors (some i) = do
  (elem, next) ← chain_next descriptors i
  rest ← chain fuel descriptors next
  ret (elim rest [ none ↦ none | some es ↦ some (elem ∷ es) ])

pub record VirtQueueUsedElem : Type 0 where
  pub id : ℕ
  pub len : ℕ

-- The `u32` id has to be a 16-bit descriptor index.
abbrev pub desc_index : VirtQueueUsedElem → Exec ℕ
desc_index e = if ltb e.id (2 ^ 16) then ret e.id else panic

pub record VirtQueueAvailRing : Type 0 where
  pub idx : ℕ
  pub ring : List ℕ

pub record VirtQueueUsedRing : Type 0 where
  pub idx : ℕ
  pub ring : List VirtQueueUsedElem

pub record VirtQueue : Type 0 where
  pub descriptors : VirtQueueDescriptorTable
  pub avail_ring : VirtQueueAvailRing
  pub used_ring : VirtQueueUsedRing
  pub last_processed_used_index : ℕ

-- `a % b` with a panic for `b` zero.
unfoldable pub add_entry : VirtQueueAvailRing → ℕ → Exec VirtQueueAvailRing
add_entry a desc_index = do
  idx ← rem_u64 a.idx (length a.ring % 2 ^ 16)
  ring ← write a.ring idx desc_index
  ret (record { idx = increment a.idx; ring = ring })

unfoldable pub get_used_elem : VirtQueueUsedRing → ℕ → Exec VirtQueueUsedElem
get_used_elem u idx = do elem_idx ← to_elem_index idx (length u.ring % 2 ^ 16); read u.ring elem_idx

-- `get_used_ring_entry`; the chain is given by its first index.
unfoldable pub get_used_ring_entry : VirtQueue → ℕ → Exec (VirtQueueUsedElem × ℕ)
get_used_ring_entry q index = do
  used_elem ← get_used_elem q.used_ring index
  idx ← desc_index used_elem
  ret (used_elem, idx)

-- `for i in i..i + left`: the entries that the callback is called with, in order.
unfoldable pub used_entries : VirtQueue → ℕ → ℕ → Exec (List (VirtQueueUsedElem × ℕ))
used_entries q i zero = ret []
used_entries q i (suc left) = do
  entry ← get_used_ring_entry q i
  rest ← used_entries q (i + 1) left
  ret (entry ∷ rest)

unfoldable pub process_new_entries : VirtQueue → Exec (List (VirtQueueUsedElem × ℕ) × VirtQueue)
process_new_entries q = do
  let used_index = q.used_ring.idx
  let last_processed = q.last_processed_used_index
  entries ← used_entries q last_processed (used_index - last_processed)
  ret (entries, record q { last_processed_used_index = used_index })

-- `VirtQueueData`: a queue with a datum for each chain that is with the device.
pub record VirtQueueData (D : Type 0) : Type 0 where
  pub data_of : List (Option D)
  pub queue : VirtQueue

module _ {D : Type 0} where
  unfoldable pub add_buffer :
      VirtQueueData D → List ChainedVirtQueueDescriptorElem → D → Exec (VirtQueueData D)
  add_buffer v descriptors datum = do
    (desc_index, table) ← add_descriptor v.queue.descriptors descriptors
    previous_data ← read v.data_of desc_index
    assert (elim previous_data [ none ↦ true | some d ↦ false ])
    avail_ring ← add_entry v.queue.avail_ring desc_index
    ret (record {
      data_of = set v.data_of desc_index (some datum);
      queue = record (v.queue) { descriptors = table; avail_ring = avail_ring };
    })

  -- The callback's data, taken out of the slots entry by entry.
  unfoldable pub take_data :
      List (Option D)
      → List (VirtQueueUsedElem × ℕ)
      → Exec (List (VirtQueueUsedElem × Option D) × List (Option D))
  take_data slots [] = ret ([], slots)
  take_data slots ((elem, idx) ∷ entries) = do
    datum ← read slots idx
    (rest, slots') ← take_data (set slots idx none) entries
    ret ((elem, datum) ∷ rest, slots')

  unfoldable pub process_new_data :
      VirtQueueData D → Exec (List (VirtQueueUsedElem × Option D) × VirtQueueData D)
  process_new_data v = do
    (entries, queue) ← process_new_entries v.queue
    (taken, slots) ← take_data v.data_of entries
    ret (taken, record { data_of = slots; queue = queue })
