-- ===== src/Dispatch.antt =====
-- src/dispatch: JSON-RPC between the loops and the kernel. The JSON values are a type `Value`.
pub mod Rpc
pub mod Contracts
pub mod Server
pub mod Client
mod Examples
