-- ===== src/Resolver.antt =====
-- crates/etas_package/src/resolver: from a manifest and a package index to a lockfile, and back.
pub mod Codec
pub mod Source
pub mod RoundTrip
