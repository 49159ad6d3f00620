-- ===== src/Scan.antt =====
-- The receiver of a scan: `ScanStream` of crates/rowd-core/src/protocol.rs. `lower` is `str::to_lowercase` and
-- `digest` the digest of a namespace, both not of this repository.
mod Messages
mod Names
mod Hashes
pub mod Pulls
pub mod Opens
pub mod Complete
pub mod Sender
pub mod Lockstep
pub use Messages.*
unfoldable pub use Names.*
unfoldable pub use Hashes.*
