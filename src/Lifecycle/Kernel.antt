-- ===== src/Lifecycle/Kernel.antt =====
-- src/awr/lifecycle/kernel.py: the next status and snapshot of a work order.
pub mod Snapshot
pub mod Guards
pub mod Response
pub mod Broker
pub mod Decision
pub mod Inversion
pub mod Frame
pub mod Authority
