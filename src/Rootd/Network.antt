-- ===== src/Rootd/Network.antt =====
-- The networking dataplane (src/rootd/network).
pub mod Allocator
pub mod TapName
