-- ===== src/Store.antt =====
-- src/store: the keys and values that the processes share, and who may write them.
pub mod Acl
pub mod Engine
mod Examples
