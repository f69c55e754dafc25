-- ===== src/Output.antt =====
-- src/output.rs: the output pipeline, from the captured bytes to what may be emitted.
pub mod Bytes
pub mod Redact
pub mod Variants
pub mod Truncate
pub mod Process
