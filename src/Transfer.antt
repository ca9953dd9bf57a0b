-- ===== src/Transfer.antt =====
-- The download of a file (src/megabasterd_cli/core/download_transport.py and downloader.py): one attempt
-- at a chunk, the refresh of the URL, the quota wait, and the run from the destination to the result.
pub mod Session
pub mod Fetch
pub mod Alike
pub mod Answered
pub mod Stepped
pub mod Vouched
pub mod Copied
pub mod Round
pub mod Refresh
pub mod Quota
pub mod Run
pub mod Sample
mod Examples
