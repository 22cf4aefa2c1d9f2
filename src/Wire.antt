-- ===== src/Wire.antt =====
-- The checks at the boundary of the daemons (src/wire).
pub mod Supervisor
