-- ===== src/Examples.antt =====
-- Concrete inputs, tests of the definitions on them, and the theorems at them.
pub mod Packages
pub mod Locks
pub mod Snapshots
pub mod Archives
pub mod Locking
pub mod Shutdowns
pub mod Stores
pub mod Registries
pub mod FileLocks
pub mod Environments
pub mod Prepared
pub mod HostConfigs
pub mod Endpoints
