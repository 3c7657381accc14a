-- ===== src/Lifecycle.antt =====
-- src/awr/lifecycle: the states of a work order after planning, the stored decisions, the kernel.
pub mod Errors
pub mod Events
pub mod Transitions
pub mod Responses
pub mod Decisions
pub mod Approval
pub mod Kernel
pub mod Pending
pub mod Trace
mod Examples
