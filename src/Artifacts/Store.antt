-- ===== src/Artifacts/Store.antt =====
-- src/awr/storage/artifact_sqlite.py: the operations of the metadata store.
pub mod Declare
pub mod Scan
pub mod Tickets
