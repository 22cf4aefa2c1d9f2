-- ===== src/Rootd/Supervisor.antt =====
-- The supervisor of src/rootd/supervisor_core.ts: its journal, its grants and its guards.
pub mod Reasons
pub mod Journal
pub mod Update
pub mod History
pub mod Bridges
pub mod Exclusion
pub mod Registry
pub mod Sweep
pub mod Terminate
mod Tests
