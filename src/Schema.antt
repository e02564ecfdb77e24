-- ===== src/Schema.antt =====
-- The JSON-schema evaluators of tools/validate_empirical_assurance_core.py and
-- tools/validate_phase10_gate_base.py.
pub mod Values
pub mod Evaluate
pub mod Relate
pub mod Fuel
pub mod Total
pub mod Agree
pub mod Closed
