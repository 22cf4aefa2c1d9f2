-- ===== src/Api.antt =====
-- The public client surface (src/api) that the daemons share.
pub mod Memory
