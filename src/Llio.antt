-- ===== src/Llio.antt =====
-- llio: messages that are read (cpp/include/llio.h `message`), messages that are built
-- (`message_builder`), and the coding of the basic types (cpp/src/lib/llio.cc).
pub mod Message
pub mod Reader
pub mod Reads
pub mod From
pub mod Layout
pub mod RoundTrip
pub mod VarintRoundTrip
pub mod Groups
pub mod Builder
pub mod To
pub mod Writing
pub mod Safety
pub mod SafeFrom
