-- ===== src/Adapter.antt =====
-- src/adapter: the providers of models behind one interface, and the breakers that guard them.
pub mod Circuit
pub mod Config
pub mod Provider
pub mod Resolver
mod Examples
