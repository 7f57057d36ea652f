-- ===== src/Virtio/Queue/Allocate.antt =====
-- The memory of a queue: the descriptor table and the two rings, each in zeroed physical pages of its
-- own, with the offsets of their parts.
use rust_os.Prelude.{
  ℕ, ◌+◌, ◌*◌, ◌<◌, ◌≡◌, true, false, Option, none, arith, ◌==◌, length, replicate, Exec, ret,
  assert, div_ceil, ◌>>=◌, ◌>>◌,
}
use mathlib.Core.Option
use rust_os.BitmapAlloc.{BitmapAllocator}
use rust_os.BitmapAlloc.Pages.{is_used}
use rust_os.BitmapAlloc.Search.{IsValid}
use rust_os.BitmapAlloc.Allocate.{Outcome}
use rust_os.Memory.{AddressLibrary, PageRange, page_size, allocate_pages, allocate_zeroed}
use rust_os.Memory.Physical.{range_of, InWindow, allocate_pages_lem}
use rust_os.Virtio.Queue.{
  is_power_of_two, VirtQueueDescriptorTable, RawVirtQueueDescriptor, VirtQueueAvailRing,
  VirtQueueUsedRing, VirtQueueUsedElem, VirtQueue, VirtQueueData,
}

-- `size_of::<RawVirtQueueDescriptor>()`, of a `u64`, a `u32` and two `u16`.
abbrev descriptor_bytes : ℕ
descriptor_bytes = 8 + 4 + 2 + 2

abbrev zero_descriptor : RawVirtQueueDescriptor
zero_descriptor = record {
  addr = 0;
  len = 0;
  flags = record { next = false; device_write = false; indirect = false };
  next = 0;
}

abbrev zero_elem : VirtQueueUsedElem
zero_elem = record { id = 0; len = 0 }

-- A part of the memory with the pages that it lies in.
pub record Placed (A : Type 0) : Type 0 where
  pub buffer : PageRange
  pub part : A

abbrev placed : {A : Type 0} → A → Option PageRange → Option (Placed A)
placed a pages = Option.map (λ p. record { buffer = p; part = a }) pages

module _ (lib : AddressLibrary) where
  unfoldable pub allocate_table :
      BitmapAllocator → ℕ → Exec (Option (Placed VirtQueueDescriptorTable) × BitmapAllocator)
  allocate_table a queue_size = do
    assert (is_power_of_two queue_size)
    let mem_size = descriptor_bytes * queue_size
    assert (mem_size == 16 * queue_size)
    (pages, b) ← allocate_zeroed lib a mem_size
    let table : VirtQueueDescriptorTable = record {
      raw_next_index = 0;
      descriptors = replicate queue_size zero_descriptor;
    }
    ret (placed table pages, b)

  unfoldable pub allocate_avail_ring :
      BitmapAllocator → ℕ → Exec (Option (Placed VirtQueueAvailRing) × BitmapAllocator)
  allocate_avail_ring a queue_size = do
    let idx_offset : ℕ = 2
    let ring_offset = idx_offset + 2
    let ring_len = queue_size * 2
    let used_event_offset = ring_offset + ring_len
    let struct_size = used_event_offset + 2
    assert (struct_size == 6 + 2 * queue_size)
    (pages, b) ← allocate_zeroed lib a struct_size
    let ring : VirtQueueAvailRing = record { idx = 0; ring = replicate queue_size 0 }
    ret (placed ring pages, b)

  unfoldable pub allocate_used_ring :
      BitmapAllocator → ℕ → Exec (Option (Placed VirtQueueUsedRing) × BitmapAllocator)
  allocate_used_ring a queue_size = do
    let idx_offset : ℕ = 2
    let ring_offset = idx_offset + 2
    let ring_len = queue_size * (4 + 4)
    let avail_event_offset = ring_offset + ring_len
    let struct_size = avail_event_offset + 2
    assert (struct_size == 6 + 8 * queue_size)
    (pages, b) ← allocate_zeroed lib a struct_size
    let ring : VirtQueueUsedRing = record { idx = 0; ring = replicate queue_size zero_elem }
    ret (placed ring pages, b)

unfoldable pub new_queue :
    VirtQueueDescriptorTable → VirtQueueAvailRing → VirtQueueUsedRing → VirtQueue
new_queue descriptors avail_ring used_ring = record {
  descriptors = descriptors;
  avail_ring = avail_ring;
  used_ring = used_ring;
  last_processed_used_index = 0;
}

unfoldable pub new_data : {D : Type 0} → VirtQueue → VirtQueueData D
new_data queue = record {
  data_of = replicate (length queue.descriptors.descriptors) none;
  queue = queue;
}

avail_ring_pages :
    (lib : AddressLibrary) (a b : BitmapAllocator) (queue_size : ℕ) (o : Option PageRange)
    → allocate_pages lib a (div_ceil (6 + 2 * queue_size) page_size) ≡ ret (o, b)
    → allocate_avail_ring lib a queue_size
      ≡ ret (placed (record { idx = 0; ring = replicate queue_size 0 }) o, b)
unfolding allocate_avail_ring allocate_zeroed
avail_ring_pages lib a b queue_size o run =
    let bytes = 6 + 2 * queue_size in
    let same : 2 + 2 + queue_size * 2 + 2 ≡ bytes = omega arith in
    let test : (bytes == bytes) ≡ true = ground arith in rw (same, test, run)

used_ring_pages :
    (lib : AddressLibrary) (a b : BitmapAllocator) (queue_size : ℕ) (o : Option PageRange)
    → allocate_pages lib a (div_ceil (6 + 8 * queue_size) page_size) ≡ ret (o, b)
    → allocate_used_ring lib a queue_size
      ≡ ret (placed (record { idx = 0; ring = replicate queue_size zero_elem }) o, b)
unfolding allocate_used_ring allocate_zeroed
used_ring_pages lib a b queue_size o run =
    let bytes = 6 + 8 * queue_size in
    let same : 2 + 2 + queue_size * (4 + 4) + 2 ≡ bytes = omega arith in
    let test : (bytes == bytes) ≡ true = ground arith in rw (same, test, run)

module _ (lib : AddressLibrary) (a : BitmapAllocator) (valid : IsValid a)
    (zero_page : is_used a.bitmap 0 ≡ true) (window : InWindow a) (queue_size : ℕ) where
  -- On a valid allocator with page zero in use and its pages in the kernel's window, allocating the
  -- available ring never panics: the size agrees with the one that the virtio specification gives.
  -- The ring is new, in the lowest free run of pages that is long enough for that size; without
  -- such a run there is none.
  pub allocate_avail_ring_lem :
      (r : Option ℕ) × (b : BitmapAllocator) × (allocate_avail_ring lib a queue_size
        ≡ ret (
          placed
              (record { idx = 0; ring = replicate queue_size 0 })
              (Option.map (λ s. range_of s (div_ceil (6 + 2 * queue_size) page_size)) r),
          b,
        ))
      × Outcome a (div_ceil (6 + 2 * queue_size) page_size) r b
  allocate_avail_ring_lem =
      let some_pages : 0 < div_ceil (6 + 2 * queue_size) page_size = ground arith in
      let (r, b, run, o) =
        allocate_pages_lem lib a (div_ceil (6 + 2 * queue_size) page_size) valid some_pages
          zero_page window in
      (r, b, avail_ring_pages lib a b queue_size _ run, o)

  -- The same for the used ring.
  pub allocate_used_ring_lem :
      (r : Option ℕ) × (b : BitmapAllocator) × (allocate_used_ring lib a queue_size
        ≡ ret (
          placed
              (record { idx = 0; ring = replicate queue_size zero_elem })
              (Option.map (λ s. range_of s (div_ceil (6 + 8 * queue_size) page_size)) r),
          b,
        ))
      × Outcome a (div_ceil (6 + 8 * queue_size) page_size) r b
  allocate_used_ring_lem =
      let some_pages : 0 < div_ceil (6 + 8 * queue_size) page_size = ground arith in
      let (r, b, run, o) =
        allocate_pages_lem lib a (div_ceil (6 + 8 * queue_size) page_size) valid some_pages
          zero_page window in
      (r, b, used_ring_pages lib a b queue_size _ run, o)
