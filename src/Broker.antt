-- ===== src/Broker.antt =====
-- src/awr/service.py, the broker, over the tables of src/awr/storage/sqlite.py.
pub mod Records
pub mod Store
pub mod Decisions
pub mod Service
pub mod Decide
pub mod Events
pub mod View
pub mod Commits
pub mod Committed
pub mod Submitted
pub mod Refinement
pub mod Dispatches
pub mod Plans
pub mod Intents
pub mod Life
pub mod Calls
pub mod Replays
pub mod Claims
pub mod Leases
pub mod Planning
pub mod Routing
pub mod Journal
mod Examples
pub mod Deliveries
pub mod Polls
pub mod Readers
pub mod Repositories
