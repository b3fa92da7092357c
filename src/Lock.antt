-- ===== src/Lock.antt =====
-- crates/etas_package/src/resolver/lock.rs, lock_policy.rs and entry.rs: writing a lockfile from a
-- package index, and holding a lockfile against its manifest.
pub mod Packages
pub mod Package
pub mod Policy
pub mod Conflicts
pub mod Agreement
pub mod Accepted
