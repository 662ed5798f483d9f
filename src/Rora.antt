-- ===== src/Rora.antt =====
-- The client of cpp/src/lib/rora_proxy_client.cc, which reads slices of objects from the osds that
-- hold their fragments.
pub mod Slices
pub mod Chunks
pub mod Tiling
pub mod Covering
pub mod Key
pub mod Levels
pub mod Client
pub mod Access
pub mod Keys
pub mod Resolve
pub mod ShortPath
pub mod Reads
pub mod Methods
pub mod Upkeep
pub mod Choice
pub mod Invariant
pub mod Digests
pub mod Routes
pub mod Refusals
