-- ===== src/Hostd.antt =====
-- The unprivileged host daemon (src/hostd).
pub mod Capacity
pub mod TunnelAuthorizer
pub mod Leases
