-- ===== src/Runs.antt =====
-- Runs of the theorems on concrete messages, objects and caches.
pub mod Messages
pub mod Manifests
pub mod Slices
pub mod Caches
pub mod Osds
pub mod Replies
pub mod Levels
pub mod Wires
pub mod Sockets
pub mod Files
pub mod Crcs
pub mod Calls
pub mod Worlds
pub mod Reads
