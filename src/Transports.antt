-- ===== src/Transports.antt =====
-- src/transports: the prefaces of the two hops of a tunnel.
pub mod Preface
pub mod TunnelPreface
pub mod BridgePreface
