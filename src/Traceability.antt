-- ===== src/Traceability.antt =====
-- tools/traceability_sync.py: the requirement traceability matrix and its sync.
mod Tests
pub mod Cells
pub mod Rows
pub mod Reading
pub mod Syncing
pub mod Rendering
pub mod Command
