-- ===== src/Security.antt =====
-- Credentials (src/security).
pub mod Tickets
