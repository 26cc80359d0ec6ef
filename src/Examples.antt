-- ===== src/Examples.antt =====
-- The theorems at concrete inputs.
pub mod Commands
pub mod Gates
pub mod Histories
pub mod Limits
pub mod Logs
pub mod Macros
pub mod Keys
pub mod Sessions
pub mod Streams
