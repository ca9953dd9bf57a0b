-- ===== src/State.antt =====
-- Resume state of a transfer, the `.mbstate` file (src/megabasterd_cli/core/state.py).
pub mod Hex
pub mod Model
pub mod Validate
pub mod Store
pub mod Saving
pub mod Loading
pub mod Sound
pub mod Resume
mod Examples
pub mod Marks
