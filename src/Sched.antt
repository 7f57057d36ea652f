-- ===== src/Sched.antt =====
-- kernel/src/sched: tasks, the run queue of a processor and the context switch.
pub mod Task
pub mod Core
pub mod Store
pub mod Queue
pub mod Swap
pub mod Stack
pub mod Context
pub mod Invariant
mod Tests
