-- ===== src/Upload.antt =====
-- The upload of a file (src/megabasterd_cli/core/uploader.py, upload_transport.py, upload_identity.py):
-- one attempt at a chunk, the run from the resume state to the registered node, and the empty file.
pub mod Session
pub mod Post
pub mod Identity
pub mod Register
pub mod Run
pub mod Resumes
pub mod Kept
pub mod Begun
pub mod Finish
pub mod Committed
pub mod Stepped
pub mod Recorded
pub mod Delivered
pub mod Sealed
pub mod Sent
pub mod Registered
pub mod Fresh
pub mod Started
pub mod Returned
pub mod Round
pub mod Whole
pub mod Slot
pub mod Refines
pub mod Empty
pub mod Sample
mod Examples
