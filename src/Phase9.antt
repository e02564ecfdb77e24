-- ===== src/Phase9.antt =====
-- tools/validate_phase9_gate.py: the claims of the adversarial gate.
pub mod Claims
pub mod Closed
pub mod Report
pub mod Evidence
pub mod Covered
pub mod Graduation
pub mod Composed
pub mod Built
pub mod Run
pub mod Conclusion
pub mod Recorded
pub mod Failures
