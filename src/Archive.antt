-- ===== src/Archive.antt =====
-- crates/etas_package/src/source/archive.rs: the tar archive inside an `.etaspkg` file. Compression and
-- hashing are not modelled.
pub mod Octal
pub mod Number
pub mod Tar
pub mod Inside
pub mod Blocks
pub mod Names
pub mod Entry
pub mod RoundTrip
