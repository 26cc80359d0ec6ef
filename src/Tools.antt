-- ===== src/Tools.antt =====
-- src/tools: the catalog of tools and the secured dispatch of a call.
pub mod Catalog
pub mod Windows
pub mod Replies
pub mod Pipeline
pub mod Stream
pub mod Replay
