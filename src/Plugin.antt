-- ===== src/Plugin.antt =====
-- `rust/src/core/plugin`: the runtime of a plugin.
pub mod Connection
pub mod State
pub mod Downstream
pub mod Api
pub mod Definition
pub mod Rpc
pub mod Pipelined
pub mod Incoming
