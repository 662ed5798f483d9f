-- ===== src/Asd.antt =====
-- Direct access to the asds.
pub mod Pool
pub mod PoolSize
pub mod Direct
pub mod Complete
pub mod Requests
pub mod Responses
pub mod Client
