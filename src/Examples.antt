-- ===== src/Examples.antt =====
-- Two small Shares on which the operations run, and the theorems at work on them.
pub mod Formats
pub mod Rounds
pub mod Names
pub mod Invitations
pub mod Recoveries
pub mod Permits
pub mod Sessions
pub mod Installed
pub mod Windows
pub mod Wakes
pub mod Scans
pub mod Responses
pub mod Packets
