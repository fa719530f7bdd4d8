-- ===== src/Version.antt =====
-- agent/version
pub mod SemVer
pub mod Range
pub mod Matrix
pub mod Profile
mod Tests
