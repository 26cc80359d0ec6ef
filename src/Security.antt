-- ===== src/Security.antt =====
-- src/security: the defences of the request pipeline, one module for each file of that folder.
pub mod Hashing
pub mod Canonical
pub mod Token
pub mod Consent
pub mod Policy
pub mod Sanitize
pub mod Whitelist
pub mod RateLimit
pub mod Auth
pub mod Paths
