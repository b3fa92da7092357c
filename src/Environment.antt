-- ===== src/Environment.antt =====
-- The package environment: crates/etas_package/src/resolver/environment.rs.
pub mod Model
pub mod Fingerprint
pub mod Finish
pub mod Graph
pub mod Payload
pub mod Build
pub mod Agree
pub mod Verified
pub mod Resolved
pub mod Ends
pub mod Owned
mod Found
pub mod Dependencies
pub mod Sound
mod Walked
mod Clean
pub mod Transitive
