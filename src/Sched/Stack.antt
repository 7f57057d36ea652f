-- ===== src/Sched/Stack.antt =====
-- kernel/src/sched/stack.rs: where the kernel stacks lie. Mapping and unmapping their pages is left
-- out.
use rust_os.Prelude.{
  ℕ, ◌+◌, ◌-◌, ◌*◌, ◌/◌, ◌%◌, ◌≤◌, ◌<◌, ◌≡◌, Bool, true, false, ◌&&◌, arith, ltb, leb, ◌==◌,
  if◌then◌else◌, Exec, ret, assert, ◌>>◌,
}

abbrev pub page_bytes : ℕ
page_bytes = 4096

abbrev pub kernel_stack_size_pages : ℕ
kernel_stack_size_pages = 16

abbrev pub kernel_stack_size : ℕ
kernel_stack_size = kernel_stack_size_pages * page_bytes

abbrev pub max_kernel_stacks : ℕ
max_kernel_stacks = 256

abbrev pub kernel_stack_start_virt_addr : ℕ
kernel_stack_start_virt_addr = 18446691297151418368

-- The address of the stack that `allocate` hands out for an index.
unfoldable pub stack_start : ℕ → ℕ
stack_start stack_index = kernel_stack_start_virt_addr + stack_index * kernel_stack_size

-- The index that `free` gives back to the allocator.
unfoldable pub stack_index : ℕ → ℕ
stack_index start_addr = (start_addr - kernel_stack_start_virt_addr) / kernel_stack_size

-- The first page of a stack, and the address of its `i`-th mapped page.
unfoldable pub guard_page : ℕ → Exec ℕ
guard_page start_addr = do assert (start_addr % page_bytes == 0); ret start_addr

unfoldable pub mapped_page : ℕ → ℕ → ℕ
mapped_page start_addr i = start_addr + page_bytes + i * page_bytes

unfoldable pub is_kernel_guard_page : ℕ → Bool
is_kernel_guard_page addr =
    let above_kernel_stack = leb kernel_stack_start_virt_addr addr in
    let all_stacks = kernel_stack_size * max_kernel_stacks in
    let within_kernel_stack = ltb addr (kernel_stack_start_virt_addr + all_stacks) in
    let stack_page_index = (addr - kernel_stack_start_virt_addr) / page_bytes in
    if above_kernel_stack && within_kernel_stack
    then stack_page_index % kernel_stack_size_pages == 0
    else false

-- An address that the test calls a guard page lies in the first page of one of the stacks, and every
-- address in the first page of a stack passes the test.
pub is_kernel_guard_page_iff :
    (addr : ℕ)
    → (is_kernel_guard_page addr ≡ true
        → (i : ℕ) × (i < max_kernel_stacks)
          × (stack_start i ≤ addr)
          × (addr < stack_start i + page_bytes))
      × ((i : ℕ)
          → i < max_kernel_stacks
          → stack_start i ≤ addr
          → addr < stack_start i + page_bytes
          → is_kernel_guard_page addr ≡ true)
unfolding is_kernel_guard_page stack_start
is_kernel_guard_page_iff addr = (
  (λ h.
      let i = (addr - kernel_stack_start_virt_addr) / kernel_stack_size in
      let facts : (kernel_stack_start_virt_addr ≤ addr)
          × (addr < kernel_stack_start_virt_addr + kernel_stack_size * max_kernel_stacks)
          × ((addr - kernel_stack_start_virt_addr) / page_bytes % kernel_stack_size_pages ≡ 0) =
        ground arith in
      let (above, within, first) = facts in (i, omega arith, omega arith, omega arith)),
  λ i small above below.
      let first : (addr - kernel_stack_start_virt_addr) / page_bytes % kernel_stack_size_pages ≡ 0 =
        omega arith in
      ground (arith, first),
)

-- Freeing a stack gives back the index that it was allocated for; its guard page is the first of its
-- sixteen pages, its mapped pages are the other fifteen, and they stay below the next stack.
pub stack_index-stack_start :
    (i : ℕ)
    → (stack_index (stack_start i) ≡ i)
      × (guard_page (stack_start i) ≡ ret (stack_start i))
      × (stack_start i < mapped_page (stack_start i) 0)
      × (mapped_page (stack_start i) 15 ≡ stack_start (i + 1))
unfolding stack_index stack_start guard_page mapped_page
stack_index-stack_start i =
    let t : ((kernel_stack_start_virt_addr + i * kernel_stack_size) % page_bytes == 0) ≡ true =
      ground arith in
    (omega arith, rw t, omega arith, omega arith)
