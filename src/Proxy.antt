-- ===== src/Proxy.antt =====
-- The protocol between a client and the proxy.
pub mod Sequences
pub mod Requests
pub mod Written
pub mod Responses
pub mod Replies
