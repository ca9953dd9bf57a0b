-- ===== src/Stream.antt =====
-- The streaming server (src/megabasterd_cli/streaming/server.py): the answer to one GET request, after the
-- access check.
pub mod Range
pub mod Pump
pub mod Pumped
pub mod Serve
pub mod Honest
pub mod Served
mod Examples
