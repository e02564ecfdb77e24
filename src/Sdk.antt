-- ===== src/Sdk.antt =====
-- sdk/python/qsol_fed_sdk.py: the reference implementation of qsol-fed-sdk/1.
pub mod Normalize
pub mod Serialize
pub mod Identity
pub mod Patterns
pub mod Fields
pub mod Documents
pub mod Envelope
pub mod Sound
pub mod Agreement
pub mod Equivalence
pub mod Capabilities
pub mod Checks
pub mod Binding
pub mod Records
pub mod Profiles
pub mod Bytes
pub mod Found
