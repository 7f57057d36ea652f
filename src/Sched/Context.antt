-- ===== src/Sched/Context.antt =====
-- `switch_to_task` of kernel/src/sched/schedcore.rs, instruction by instruction, on a processor whose
-- memory is a function from addresses to 64-bit words. The page tables of all tasks map the kernel's
-- memory alike, so the memory is the same before and after the write to cr3.
pub mod Frames
use rust_os.Prelude.{ℕ, zero, suc, ◌+◌, ◌-◌, ◌≡◌, List, [], ◌∷◌, ◌++◌, map, ◌==◌, if◌then◌else◌}

pub data Register : Type 0 where
  rax : Register
  rbx : Register
  rcx : Register
  rdx : Register
  rbp : Register
  rsi : Register
  rdi : Register
  r8 : Register
  r9 : Register
  r10 : Register
  r11 : Register
  r12 : Register
  r13 : Register
  r14 : Register
  r15 : Register

abbrev pub register_index : Register → ℕ
register_index rax = 0
register_index rbx = 1
register_index rcx = 2
register_index rdx = 3
register_index rbp = 4
register_index rsi = 5
register_index rdi = 6
register_index r8 = 7
register_index r9 = 8
register_index r10 = 9
register_index r11 = 10
register_index r12 = 11
register_index r13 = 12
register_index r14 = 13
register_index r15 = 14

pub record Cpu : Type 0 where
  pub general : Register → ℕ
  pub rsp : ℕ
  pub cr3 : ℕ
  pub rip : ℕ
  pub memory : ℕ → ℕ

pub data Instruction : Type 0 where
  push : Register → Instruction
  pop : Register → Instruction
  store_rsp_at_rdi : Instruction
  load_rsp_from_rsi : Instruction
  load_cr3_from_rdx : Instruction
  return_from_call : Instruction

abbrev pub store : (ℕ → ℕ) → ℕ → ℕ → ℕ → ℕ
store memory address value a = if a == address then value else memory a

abbrev pub load_register : (Register → ℕ) → Register → ℕ → Register → ℕ
load_register general r value s = if register_index s == register_index r then value else general s

unfoldable pub execute : Instruction → Cpu → Cpu
execute (push r) c = record c { rsp = c.rsp - 8; memory = store c.memory (c.rsp - 8) (c.general r) }
execute (pop r) c = record c {
  general = load_register c.general r (c.memory c.rsp);
  rsp = c.rsp + 8;
}
execute store_rsp_at_rdi c = record c { memory = store c.memory (c.general rdi) c.rsp }
execute load_rsp_from_rsi c = record c { rsp = c.general rsi }
execute load_cr3_from_rdx c = record c { cr3 = c.general rdx }
execute return_from_call c = record c { rip = c.memory c.rsp; rsp = c.rsp + 8 }

unfoldable pub run : List Instruction → Cpu → Cpu
run [] c = c
run (i ∷ is) c = run is (execute i c)

abbrev pub pushes : List Instruction
pushes =
    push rax
    ∷ push rbx
    ∷ push rcx
    ∷ push rdx
    ∷ push rbp
    ∷ push rsi
    ∷ push rdi
    ∷ push r8
    ∷ push r9
    ∷ push r10
    ∷ push r11
    ∷ push r12
    ∷ push r13
    ∷ push r14
    ∷ push r15
    ∷ []

abbrev pub pops : List Instruction
pops =
    pop r15
    ∷ pop r14
    ∷ pop r13
    ∷ pop r12
    ∷ pop r11
    ∷ pop r10
    ∷ pop r9
    ∷ pop r8
    ∷ pop rdi
    ∷ pop rsi
    ∷ pop rbp
    ∷ pop rdx
    ∷ pop rcx
    ∷ pop rbx
    ∷ pop rax
    ∷ return_from_call
    ∷ []

abbrev pub switch_to_task : List Instruction
switch_to_task = pushes ++ store_rsp_at_rdi ∷ load_rsp_from_rsi ∷ load_cr3_from_rdx ∷ pops

-- The words that `Task::new` puts on a new stack with its top at `top`, besides the zeros.
abbrev pub new_stack : ℕ → ℕ → ℕ → ℕ → (ℕ → ℕ) → ℕ → ℕ
new_stack top task_setup start_fn arg memory =
    store (store (store memory (top - 16) task_setup) (top - 64) arg) (top - 72) start_fn

-- The address of the `i`-th word above `sp`.
abbrev pub word : ℕ → ℕ → ℕ
word sp zero = sp
word sp (suc i) = word sp i + 8

-- Where the pushes leave a register.
abbrev pub frame_index : Register → ℕ
frame_index r15 = 0
frame_index r14 = 1
frame_index r13 = 2
frame_index r12 = 3
frame_index r11 = 4
frame_index r10 = 5
frame_index r9 = 6
frame_index r8 = 7
frame_index rdi = 8
frame_index rsi = 9
frame_index rbp = 10
frame_index rdx = 11
frame_index rcx = 12
frame_index rbx = 13
frame_index rax = 14

-- The stack of a task that is switched away from: its registers, and its return address.
pub record Saved (memory : ℕ → ℕ) (sp : ℕ) (general : Register → ℕ) (rip : ℕ) : Type 0 where
  pub registers : (r : Register) → memory (word sp (frame_index r)) ≡ general r
  pub return_address : memory (word sp 15) ≡ rip
