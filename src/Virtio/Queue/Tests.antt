-- ===== src/Virtio/Queue/Tests.antt =====
-- The queue of four descriptors, on concrete data.
use rust_os.Prelude.{
  ℕ, zero, suc, ◌+◌, ◌%◌, ◌^◌, ◌<◌, ◌≡◌, refl, ◌≢◌, Bool, true, false, none, some, List, [], ◌∷◌,
  arith, length, get_elem?, replicate, ret,
}
use rust_os.Virtio.Queue.{
  is_power_below, is_power_of_two, VirtQueueDescriptorFlags, ChainedVirtQueueDescriptorElem,
  RawVirtQueueDescriptor, VirtQueueDescriptorTable, VirtQueueUsedElem, VirtQueue, VirtQueueData,
  add_descriptor, chain, process_new_entries, add_buffer, process_new_data,
}
use mathlib.Core.Option
use rust_os.Virtio.Queue.Chain.{slot, size}
use rust_os.Virtio.Queue.Walk.{chained, chain-add_descriptor}
use rust_os.Virtio.Queue.Used.{HasChainIds, with_chain, process_new_entries_lem}
use rust_os.Virtio.Queue.Complete.{device_finishes, Ready, process-add_buffer}

abbrev plain_flags : Bool → VirtQueueDescriptorFlags
plain_flags write = record { next = false; device_write = write; indirect = false }

abbrev request : ChainedVirtQueueDescriptorElem
request = record { addr = 4096; len = 16; flags = plain_flags false }

abbrev answer : ChainedVirtQueueDescriptorElem
answer = record { addr = 8192; len = 512; flags = plain_flags true }

abbrev unused : RawVirtQueueDescriptor
unused = record { addr = 0; len = 0; flags = plain_flags false; next = 0 }

-- The counter is about to wrap.
abbrev table : VirtQueueDescriptorTable
table = record { raw_next_index = 65535; descriptors = replicate 4 unused }

abbrev elem : ℕ → VirtQueueUsedElem
elem id = record { id = id; len = 1 }

abbrev queue : ℕ → ℕ → VirtQueue
queue used last = record {
  descriptors = table;
  avail_ring = record { idx = 5; ring = replicate 4 0 };
  used_ring = record { idx = used; ring = elem 3 ∷ elem 1 ∷ elem 0 ∷ elem 2 ∷ [] };
  last_processed_used_index = last;
}

abbrev buffers : VirtQueueData ℕ
buffers = record { data_of = replicate 4 none; queue = queue 6 6 }

four_power : is_power_of_two 4 ≡ true
unfolding is_power_below
four_power = refl

ids_fit : HasChainIds (elem 3 ∷ elem 1 ∷ elem 0 ∷ elem 2 ∷ [])
ids_fit zero e h = let same : elem 3 ≡ e = cc in rw (← same) (omega arith)
ids_fit (suc zero) e h = let same : elem 1 ≡ e = cc in rw (← same) (omega arith)
ids_fit (suc (suc zero)) e h = let same : elem 0 ≡ e = cc in rw (← same) (omega arith)
ids_fit (suc (suc (suc zero))) e h = let same : elem 2 ≡ e = cc in rw (← same) (omega arith)
ids_fit (suc (suc (suc (suc i)))) e h = cc

chain-add_descriptor_example :
    (first : ℕ) × (t' : VirtQueueDescriptorTable) × (add_descriptor table (request ∷ answer ∷ [])
      ≡ ret (first, t'))
    × (chain 2 t'.descriptors (some first) ≡ ret (some (chained (request ∷ answer ∷ []))))
    × (size t' ≡ 4)
    × ((q : ℕ)
        → ((j : ℕ) → j < 2 → q ≢ slot table j)
        → get_elem? t'.descriptors q ≡ get_elem? table.descriptors q)
chain-add_descriptor_example =
    chain-add_descriptor table request (answer ∷ []) four_power (omega arith)
      (refl, refl, (refl, refl, tt))

process_new_entries_lem_example :
    (entries : List (VirtQueueUsedElem × ℕ)) × (process_new_entries (queue 9 6)
      ≡ ret (entries, record (queue 9 6) { last_processed_used_index = 9 }))
    × (length entries ≡ 3)
    × ((j : ℕ)
        → j < 3
        → get_elem? entries j
          ≡ Option.map with_chain (get_elem? (queue 9 6).used_ring.ring ((6 + j) % 4)))
process_new_entries_lem_example = process_new_entries_lem (queue 9 6) four_power ids_fit

buffers-Ready : Ready buffers request (answer ∷ [])
buffers-Ready = record {
  power = four_power;
  data_size = refl;
  avail_size = refl;
  used_size = refl;
  room = omega arith;
  plain = (refl, refl, (refl, refl, tt));
  no_data = refl;
}

process-add_buffer_example :
    (v' : VirtQueueData ℕ) × (add_buffer buffers (request ∷ answer ∷ []) 42 ≡ ret v')
    × (get_elem? v'.queue.avail_ring.ring (5 % length v'.queue.avail_ring.ring) ≡ some 3)
    × (buffers.queue.used_ring.idx + 1 < 2 ^ 16
        → (w : VirtQueueData ℕ) × (process_new_data
              (device_finishes v' (record { id = 3; len = 512 }))
            ≡ ret ((record { id = 3; len = 512 }, some 42) ∷ [], w))
          × (w.data_of ≡ replicate 4 none))
    × (buffers.queue.used_ring.idx + 1 ≡ 2 ^ 16
        → (w : VirtQueueData ℕ) × (process_new_data
              (device_finishes v' (record { id = 3; len = 512 }))
            ≡ ret ([], w))
          × (w.queue.last_processed_used_index ≡ w.queue.used_ring.idx)
          × (get_elem? w.data_of 3 ≡ some (some 42)))
process-add_buffer_example =
    process-add_buffer buffers request (answer ∷ []) 42 buffers-Ready 512 refl
