-- ===== src/Scheduler.antt =====
-- kernel/src/scheduler.c and the context switch of kernel/src/context_switch.S: a thread table that
-- every core schedules from. `Defs` is the table and the calls on it; `Machine` is the cores'
-- interleaving: the part of a call under the lock is one step, and the switch after it another.
mod Defs
pub mod Ready
pub mod Turns
pub mod Fair
pub mod Machine
pub mod Exclusive
pub mod Steps
pub mod Mutex
pub mod Exit
mod Tests
unfoldable pub use Defs.*
