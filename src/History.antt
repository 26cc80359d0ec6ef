-- ===== src/History.antt =====
-- src/security/history.rs: the encrypted action history.
pub mod Records
pub mod Frames
pub mod Framing
pub mod Fuel
pub mod Store
pub mod Opening
pub mod Sealing
pub mod Coherence
pub mod Appending
pub mod Recording
pub mod Reopening
pub mod Lookups
pub mod Redaction
pub mod Secrecy
