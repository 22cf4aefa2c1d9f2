-- ===== src/Rootd.antt =====
-- The privileged supervisor daemon (src/rootd).
pub mod Network
pub mod Supervisor
