-- ===== src/Queue.antt =====
-- The persistent transfer queue (src/megabasterd_cli/queue/).
pub mod Model
pub mod Platform
pub mod Schema
pub mod Codec
pub mod Store
pub mod Lease
pub mod Manager
mod Examples
