-- ===== src/State.antt =====
-- src/state: the durable journal of sandboxes.
pub mod Model
pub mod Values
pub mod Raw
pub mod Grammar
pub mod Validation
pub mod Store
pub mod NewRecord
pub mod Samples
mod Tests
