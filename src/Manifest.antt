-- ===== src/Manifest.antt =====
-- crates/etas_package/src/manifest: the schema, the validation and what it accepts.
pub mod Schema
pub mod Names
pub mod Dependency
pub mod Detail
pub mod Validate
pub mod Grammar
pub mod Release
pub mod WellFormed
pub mod Shape
pub mod Valid
