-- ===== src/Artifacts.antt =====
-- src/awr/artifacts and src/awr/storage/artifact_sqlite.py: supporting files, their quarantine, their
-- scan and their way into a work bundle.
pub mod Status
pub mod Records
pub mod Verdicts
pub mod Names
pub mod Rows
pub mod Tables
pub mod Store
pub mod Intake
pub mod Leases
pub mod Moves
pub mod Replays
pub mod Uploads
pub mod Bundle
pub mod Vetted
pub mod Trace
mod Examples
