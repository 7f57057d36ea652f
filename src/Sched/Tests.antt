-- ===== src/Sched/Tests.antt =====
-- A processor with a running task, a queue of a sleeping, a killed and a ready task, and an idle
-- task.
use rust_os.Prelude.{
  ℕ, ◌+◌, ◌*◌, ◌<◌, ◌≡◌, refl, ◌⊎◌, inl, inr, Option, none, some, [], ◌∷◌, arith, ret,
}
use rust_os.Sched.Task.{DesiredTaskState, ready_to_run, sleeping, killed, Task, find}
use rust_os.Sched.Context.{
  Register, rax, rbx, rcx, rdx, rbp, rsi, rdi, r8, r9, r10, r11, r12, r13, r14, r15, Cpu, run,
  switch_to_task, Saved, word, frame_index, new_stack,
}
use rust_os.Sched.Context.Frames.{Ready, SwitchedTo, switch_to_task_lem}
use rust_os.Sched.Core.{
  Kernel, Switch, pos, run_scheduler, prepare_to_sleep, awaken_task, with_state,
}
use rust_os.Sched.Store.{count, Has}
use rust_os.Sched.Swap.{Valid}
use rust_os.Sched.Swap.Switching.{Swapped, task_swap_parameters_lem}
use rust_os.Sched.Invariant.{run_scheduler_lem, awaken_task-prepare_to_sleep}

abbrev task : ℕ → DesiredTaskState → Task
task id s = record {
  id = id;
  rsp = 1000 * id;
  desired_state = s;
  page_table = 4096 * id;
  remaining_slice = 30;
  kernel_stack = 65536 * id;
}

abbrev kernel : Kernel
kernel = record {
  tasks = record {
    next_task_id = 6;
    tasks =
        task 1 ready_to_run
        ∷ task 2 ready_to_run
        ∷ task 3 sleeping
        ∷ task 4 killed
        ∷ task 5 ready_to_run
        ∷ [];
  };
  pending_tasks = 3 ∷ 4 ∷ 5 ∷ [];
  current_task_id = 2;
  idle_task_id = 1;
  needs_reschedule = 1;
  preempt_count = pos 0;
  top_of_kernel_stack = 0;
  tss_rsp0 = 0;
}

queued : (x : ℕ) → 0 < count x (3 ∷ 4 ∷ 5 ∷ []) → (x ≡ 3) ⊎ ((x ≡ 4) ⊎ (x ≡ 5))
queued x h = ground arith

queued_present : (x : ℕ) → 0 < count x (3 ∷ 4 ∷ 5 ∷ []) → Has kernel.tasks.tasks x
queued_present x h = elim (queued x h) [
  | inl e ↦ rw e (task 3 sleeping, refl)
  | inr (inl e) ↦ rw e (task 4 killed, refl)
  | inr (inr e) ↦ rw e (task 5 ready_to_run, refl)
]

kernel-Valid : Valid kernel
kernel-Valid = record {
  pending_present = queued_present;
  current_present = (task 2 ready_to_run, refl);
  idle_present = (task 1 ready_to_run, refl);
  distinct = λ x. ground arith;
  current_apart = refl;
  idle_apart = refl;
}

task_swap_parameters_lem_example : Swapped kernel
task_swap_parameters_lem_example = task_swap_parameters_lem kernel kernel-Valid

run_scheduler_lem_example :
    (o : Option Switch) × (k' : Kernel) × (run_scheduler kernel ≡ ret (o, k'))
    × Valid k'
    × (0 < 0 → (o ≡ none) × (k'.current_task_id ≡ 2))
run_scheduler_lem_example = run_scheduler_lem kernel 0 kernel-Valid refl

awaken_task-prepare_to_sleep_example :
    (k' k'' : Kernel) × (prepare_to_sleep kernel ≡ ret (2, k'))
    × Valid k'
    × (find k'.tasks.tasks 2 ≡ some (with_state sleeping (task 2 ready_to_run)))
    × (awaken_task k' 2 ≡ ret k'')
    × Valid k''
    × (find k''.tasks.tasks 2 ≡ some (with_state ready_to_run (task 2 ready_to_run)))
awaken_task-prepare_to_sleep_example =
    awaken_task-prepare_to_sleep kernel (task 2 ready_to_run) kernel-Valid refl

-- The second stack's guard page.
abbrev guard_address : ℕ
guard_address = 18446691297151418368 + 65536 + 100

-- A switch to a task that has never run: its stack, with the top at 65536, is as `Task::new` made
-- it, for the setup code at 7, the argument 8 and the start function 9.
abbrev registers : Register → ℕ
registers rdi = 100
registers rsi = 65400
registers rdx = 4096
registers _ = 1

abbrev cpu : Cpu
cpu = record {
  general = registers;
  rsp = 131072;
  cr3 = 0;
  rip = 0;
  memory = new_stack 65536 7 9 8 (λ a. 0);
}

abbrev first_registers : Register → ℕ
first_registers rdi = 9
first_registers rsi = 8
first_registers _ = 0

first_word : (r : Register) → cpu.memory (word 65400 (frame_index r)) ≡ first_registers r
first_word rax = refl
first_word rbx = refl
first_word rcx = refl
first_word rdx = refl
first_word rbp = refl
first_word rsi = refl
first_word rdi = refl
first_word r8 = refl
first_word r9 = refl
first_word r10 = refl
first_word r11 = refl
first_word r12 = refl
first_word r13 = refl
first_word r14 = refl
first_word r15 = refl

first_frame : Saved cpu.memory 65400 first_registers 7
first_frame = record { registers = first_word; return_address = refl }

cpu-Ready : Ready cpu first_registers 7
cpu-Ready = record {
  room = omega arith;
  next_saved = first_frame;
  frames_apart = inl (omega arith);
  slot_apart_prev = inl (omega arith);
  slot_apart_next = inl (omega arith);
}

switch_to_task_lem_example : SwitchedTo cpu (run switch_to_task cpu) first_registers 7
switch_to_task_lem_example = switch_to_task_lem cpu first_registers 7 cpu-Ready
