-- ===== src/Isolation.antt =====
-- tools/moriarty_isolation.py: the isolation in which the harness runs a probe.
pub mod Filter
pub mod Policy
pub mod Steps
pub mod Enforced
pub mod Admits
