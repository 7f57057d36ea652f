-- ===== src/Sched/Task.antt =====
-- kernel/src/sched/task.rs: tasks and the table of all tasks. A task is reached through a shared
-- `Arc`, so a write to one of its atomic fields is a write to the table's task.
use rust_os.Prelude.{
  ℕ, ◌+◌, ◌-◌, ◌*◌, ◌%◌, ◌^◌, Bool, true, false, not, Option, none, some, List, [], ◌∷◌, ◌++◌, ltb,
  ◌==◌, if◌then◌else◌, Exec, ret, assert, expect, ◌>>=◌, ◌>>◌,
}

pub data DesiredTaskState : Type 0 where
  ready_to_run : DesiredTaskState
  sleeping : DesiredTaskState
  killed : DesiredTaskState

abbrev pub is_ready : DesiredTaskState → Bool
is_ready ready_to_run = true
is_ready sleeping = false
is_ready killed = false

abbrev pub is_killed : DesiredTaskState → Bool
is_killed ready_to_run = false
is_killed sleeping = false
is_killed killed = true

abbrev pub to_u8 : DesiredTaskState → ℕ
to_u8 ready_to_run = 0
to_u8 sleeping = 1
to_u8 killed = 2

unfoldable pub try_from : ℕ → Option DesiredTaskState
try_from value =
    if value == 0
    then some ready_to_run
    else (if value == 1 then some sleeping else (if value == 2 then some killed else none))

pub data TaskExitCode : Type 0 where
  exit_success : TaskExitCode
  exit_failure : ℕ → TaskExitCode

unfoldable pub exit_code_from : ℕ → TaskExitCode
exit_code_from value = if value == 0 then exit_success else exit_failure value

-- The fields that the scheduler reads or writes. `rsp` is the one register that it keeps in the
-- task; `page_table` is the physical address of the task's page table.
pub record Task : Type 0 where
  pub id : ℕ
  pub rsp : ℕ
  pub desired_state : DesiredTaskState
  pub page_table : ℕ
  pub remaining_slice : ℕ
  pub kernel_stack : ℕ

pub record Tasks : Type 0 where
  pub next_task_id : ℕ
  pub tasks : List Task

-- The map from ids to tasks.
abbrev pub find : List Task → ℕ → Option Task
find [] id = none
find (t ∷ ts) id = if t.id == id then some t else find ts id

abbrev pub remove : List Task → ℕ → List Task
remove [] id = []
remove (t ∷ ts) id = let rest = remove ts id in if t.id == id then rest else t ∷ rest

abbrev pub update : List Task → ℕ → (Task → Task) → List Task
update [] id f = []
update (t ∷ ts) id f = (if t.id == id then f t else t) ∷ update ts id f

unfoldable pub get_task : Tasks → ℕ → Option Task
get_task ts id = find ts.tasks id

abbrev pub get_task_assert : Tasks → ℕ → Exec Task
get_task_assert ts id = expect (find ts.tasks id)

abbrev pub is_present : Option Task → Bool
is_present none = false
is_present (some t) = true

unfoldable pub delete_task : Tasks → ℕ → Exec Tasks
delete_task ts id = do
  assert (is_present (find ts.tasks id))
  ret (record ts { tasks = remove ts.tasks id })

abbrev pub kernel_stack_size_bytes : ℕ
kernel_stack_size_bytes = 65536

abbrev pub top_addr : ℕ → ℕ
top_addr start_addr = start_addr + kernel_stack_size_bytes

-- `Task::new`, given the stack and the page table that it allocates: 15 registers, the return
-- address and a zero lie on the new stack.
unfoldable pub task_new : ℕ → ℕ → ℕ → Exec Task
task_new id kernel_stack page_table = do
  assert (top_addr kernel_stack % 8 == 0)
  ret (record {
    id = id;
    rsp = top_addr kernel_stack - 17 * 8;
    desired_state = ready_to_run;
    page_table = page_table;
    remaining_slice = 0;
    kernel_stack = kernel_stack;
  })

-- `Tasks::new_task`; the id is a `u32`, and its increment is checked.
unfoldable pub new_task : Tasks → ℕ → ℕ → Exec (ℕ × Tasks)
new_task ts kernel_stack page_table = do
  let id = ts.next_task_id
  assert (ltb (id + 1) (2 ^ 32))
  assert (not (is_present (find ts.tasks id)))
  task ← task_new id kernel_stack page_table
  ret (id, record { next_task_id = id + 1; tasks = ts.tasks ++ task ∷ [] })
