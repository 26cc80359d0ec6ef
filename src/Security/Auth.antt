-- ===== src/Security/Auth.antt =====
-- src/security/auth.rs: the API keys of the HTTP transport.
pub mod Compare
pub mod Keys
pub mod Gate
pub mod Format
pub mod First
pub mod Rotation
pub mod Listing
pub mod Loading
