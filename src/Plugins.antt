-- ===== src/Plugins.antt =====
-- src/plugins.rs: manifests of tool macros, from their grammar to the steps that a run dispatches.
pub mod Grammar
pub mod Template
pub mod Escapes
pub mod Manifest
pub mod Accepted
pub mod Substitution
pub mod Binding
pub mod Running
pub mod Faults
pub mod Runs
pub mod Store
pub mod Unique
pub mod Loaded
pub mod Address
