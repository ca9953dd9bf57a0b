-- ===== src/Crypto.antt =====
-- The cryptographic helpers (src/megabasterd_cli/core/crypto.py) and the MACs of the chunks
-- (src/megabasterd_cli/core/chunks.py). A text is the list of its code points, a failure `none`.
pub mod Base64
pub mod Words
pub mod Primitives
pub mod Wrap
pub mod Keys
pub mod PasswordLink
pub mod Mac
pub mod Attributes
pub mod Derive
pub mod Plain
mod Examples
