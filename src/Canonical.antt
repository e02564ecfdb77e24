-- ===== src/Canonical.antt =====
-- tools/qsol_canonical.py: the profile qsol-fed-canonical-json/1.
pub mod Normalize
pub mod Serialize
pub mod Identity
pub mod Form
pub mod Sound
pub mod Complete
pub mod Arrange
pub mod Preserved
pub mod RoundTrip
