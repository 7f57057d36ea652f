-- ===== src/Sched/Context/Frames.antt =====
-- What a context switch saves on one stack and restores from another.
use rust_os.Prelude.{
  ℕ, zero, suc, ◌+◌, ◌-◌, ◌*◌, ◌≤◌, ◌<◌, ◌≡◌, refl, ◌∙◌, ◌⊎◌, inl, inr, true, false, arith, ◌==◌,
  if◌then◌else◌,
}
use rust_os.Sched.Context.{
  Register, rax, rbx, rcx, rdx, rbp, rsi, rdi, r8, r9, r10, r11, r12, r13, r14, r15, Cpu,
  store_rsp_at_rdi, load_rsp_from_rsi, load_cr3_from_rdx, execute, run, pushes, pops,
  switch_to_task, word, frame_index, Saved,
}

-- The pops restore every register and the return address from such a stack, and leave the stack
-- pointer above it.
restored :
    (c : Cpu) (general : Register → ℕ) (rip : ℕ)
    → Saved c.memory c.rsp general rip
    → (r : Register) → (run pops c).general r ≡ general r
unfolding run execute
restored c general rip saved r15 = saved.registers r15
restored c general rip saved r14 = saved.registers r14
restored c general rip saved r13 = saved.registers r13
restored c general rip saved r12 = saved.registers r12
restored c general rip saved r11 = saved.registers r11
restored c general rip saved r10 = saved.registers r10
restored c general rip saved r9 = saved.registers r9
restored c general rip saved r8 = saved.registers r8
restored c general rip saved rdi = saved.registers rdi
restored c general rip saved rsi = saved.registers rsi
restored c general rip saved rbp = saved.registers rbp
restored c general rip saved rdx = saved.registers rdx
restored c general rip saved rcx = saved.registers rcx
restored c general rip saved rbx = saved.registers rbx
restored c general rip saved rax = saved.registers rax

saved_register :
    (c : Cpu)
    → 120 ≤ c.rsp
    → (r : Register) → (run pushes c).memory (word (c.rsp - 120) (frame_index r)) ≡ c.general r
unfolding run execute
saved_register c room r15 = ground arith
saved_register c room r14 = ground arith
saved_register c room r13 = ground arith
saved_register c room r12 = ground arith
saved_register c room r11 = ground arith
saved_register c room r10 = ground arith
saved_register c room r9 = ground arith
saved_register c room r8 = ground arith
saved_register c room rdi = ground arith
saved_register c room rsi = ground arith
saved_register c room rbp = ground arith
saved_register c room rdx = ground arith
saved_register c room rcx = ground arith
saved_register c room rbx = ground arith
saved_register c room rax = ground arith

-- The memory outside the pushed words stays.
pushes_keep :
    (c : Cpu) (a : ℕ)
    → 120 ≤ c.rsp
    → (a + 120 < c.rsp) ⊎ (c.rsp ≤ a)
    → (run pushes c).memory a ≡ c.memory a
unfolding run execute
pushes_keep c a room (inl below) = ground arith
pushes_keep c a room (inr above) = ground arith

pushes_rsp : (c : Cpu) → 120 ≤ c.rsp → (run pushes c).rsp ≡ c.rsp - 120
unfolding run execute
pushes_rsp c room = omega arith

word_lem : (sp i : ℕ) → word sp i ≡ sp + 8 * i
word_lem sp zero = omega arith
word_lem sp (suc i) = omega (arith, word_lem sp i)

frame_index-lt : (r : Register) → frame_index r < 15
frame_index-lt r15 = omega arith
frame_index-lt r14 = omega arith
frame_index-lt r13 = omega arith
frame_index-lt r12 = omega arith
frame_index-lt r11 = omega arith
frame_index-lt r10 = omega arith
frame_index-lt r9 = omega arith
frame_index-lt r8 = omega arith
frame_index-lt rdi = omega arith
frame_index-lt rsi = omega arith
frame_index-lt rbp = omega arith
frame_index-lt rdx = omega arith
frame_index-lt rcx = omega arith
frame_index-lt rbx = omega arith
frame_index-lt rax = omega arith

-- What `switch_to_task` needs: room on the previous stack, and the next task's saved frame, where
-- neither the 16 words of that frame nor those of the previous task's frame hold the place for the
-- previous stack pointer, and the two frames lie apart.
pub record Ready (c : Cpu) (general : Register → ℕ) (rip : ℕ) : Type 0 where
  pub room : 120 ≤ c.rsp
  pub next_saved : Saved c.memory (c.general rsi) general rip
  pub frames_apart : (c.general rsi + 248 < c.rsp) ⊎ (c.rsp + 8 ≤ c.general rsi)
  pub slot_apart_prev : (c.general rdi + 120 < c.rsp) ⊎ (c.rsp < c.general rdi)
  pub slot_apart_next : (c.general rdi < c.general rsi) ⊎ (c.general rsi + 120 < c.general rdi)

-- Just before the pops.
abbrev loaded : Cpu → Cpu
loaded c =
    execute load_cr3_from_rdx (execute load_rsp_from_rsi (execute store_rsp_at_rdi (run pushes c)))

loaded_memory :
    (c : Cpu) (a : ℕ)
    → (loaded c).memory a
      ≡ (if a == c.general rdi then (run pushes c).rsp else (run pushes c).memory a)
unfolding run execute
loaded_memory c a = refl

module _ (c : Cpu) (general : Register → ℕ) (rip : ℕ) (v : Ready c general rip) where
  next_word :
      (i : ℕ)
      → i ≤ 15
      → (loaded c).memory (word (c.general rsi) i) ≡ c.memory (word (c.general rsi) i)
  next_word i small =
      let at = word (c.general rsi) i in
      let place = word_lem (c.general rsi) i in
      let apart : (at == c.general rdi) ≡ false = ground (arith, place, v.slot_apart_next) in
      let clear : (at + 120 < c.rsp) ⊎ (c.rsp ≤ at) = ground (arith, place, v.frames_apart) in
      loaded_memory c at ∙ rw apart (pushes_keep c at v.room clear)

  prev_word :
      (i : ℕ)
      → i ≤ 15
      → (loaded c).memory (word (c.rsp - 120) i) ≡ (run pushes c).memory (word (c.rsp - 120) i)
  prev_word i small =
      let at = word (c.rsp - 120) i in
      let place = word_lem (c.rsp - 120) i in
      let apart : (at == c.general rdi) ≡ false =
        ground (arith, place, v.slot_apart_prev, v.room) in
      loaded_memory c at ∙ rw apart

-- The processor after the switch: the next task's registers, return address, stack and page table,
-- and the previous task's frame on its stack, with the place of that frame stored for the way back.
pub record SwitchedTo (c d : Cpu) (general : Register → ℕ) (rip : ℕ) : Type 0 where
  pub registers : (r : Register) → d.general r ≡ general r
  pub continues_at : d.rip ≡ rip
  pub stack : d.rsp ≡ c.general rsi + 128
  pub page_table : d.cr3 ≡ c.general rdx
  pub stored : d.memory (c.general rdi) ≡ c.rsp - 120
  pub prev_saved : Saved d.memory (c.rsp - 120) c.general (c.memory c.rsp)

split_switch : (c : Cpu) → run switch_to_task c ≡ run pops (loaded c)
unfolding run execute
split_switch c = refl

pops_rest :
    (c : Cpu)
    → ((run pops c).rip ≡ c.memory (word c.rsp 15))
      × ((run pops c).rsp ≡ word c.rsp 16)
      × ((run pops c).cr3 ≡ c.cr3)
      × ((a : ℕ) → (run pops c).memory a ≡ c.memory a)
unfolding run execute
pops_rest c = (refl, refl, refl, λ a. refl)

loaded_rest : (c : Cpu) → ((loaded c).rsp ≡ c.general rsi) × ((loaded c).cr3 ≡ c.general rdx)
unfolding run execute
loaded_rest c = (refl, refl)

-- With enough room on the previous stack and the frames apart, `switch_to_task` continues the next
-- task with the registers that its frame holds, at its return address, with its page table. It
-- leaves such a frame of the previous task on the previous stack, and stores that stack pointer.
pub switch_to_task_lem :
    (c : Cpu) (general : Register → ℕ) (rip : ℕ)
    → Ready c general rip
    → SwitchedTo c (run switch_to_task c) general rip
switch_to_task_lem c general rip v =
    let d = loaded c in
    let (sp, table) = loaded_rest c in
    let (at, above, same_table, same_memory) = pops_rest d in
    let frame : Saved d.memory d.rsp general rip = rw sp (record {
      registers = λ r.
          next_word c general rip v (frame_index r) (let h = frame_index-lt r in omega arith)
          ∙ v.next_saved.registers r;
      return_address = next_word c general rip v 15 (omega arith) ∙ v.next_saved.return_address;
    }) in
    rw (split_switch c) (record {
      registers = restored d general rip frame;
      continues_at = at ∙ frame.return_address;
      stack = above ∙ word_lem d.rsp 16 ∙ rw sp;
      page_table = same_table ∙ table;
      stored =
          same_memory (c.general rdi)
          ∙ loaded_memory c (c.general rdi)
          ∙ stored_here c
          ∙ pushes_rsp c v.room;
      prev_saved = record {
        registers = λ r.
            same_memory (word (c.rsp - 120) (frame_index r))
            ∙ prev_word c general rip v (frame_index r) (let h = frame_index-lt r in omega arith)
            ∙ saved_register c v.room r;
        return_address =
            same_memory (word (c.rsp - 120) 15)
            ∙ prev_word c general rip v 15 (omega arith)
            ∙ pushes_return c v.room;
      };
    })
  where
    stored_here :
        (c : Cpu)
        → (if c.general rdi == c.general rdi
            then (run pushes c).rsp
            else (run pushes c).memory (c.general rdi))
          ≡ (run pushes c).rsp
    stored_here c = let t : (c.general rdi == c.general rdi) ≡ true = ground arith in rw t

    pushes_return :
        (c : Cpu) → 120 ≤ c.rsp → (run pushes c).memory (word (c.rsp - 120) 15) ≡ c.memory c.rsp
    pushes_return c room =
        let top : word (c.rsp - 120) 15 ≡ c.rsp = omega arith in
        rw top (pushes_keep c c.rsp room (inr (omega arith)))
