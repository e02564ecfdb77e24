-- ===== src/Moriarty.antt =====
-- tools/run_moriarty.py: the harness that runs the adversarial probes.
pub mod Output
pub mod Processes
pub mod Descendants
pub mod Shapes
pub mod Corpus
pub mod Counterexample
pub mod Registry
pub mod Replay
pub mod Verdicts
pub mod Distinct
pub mod Attacks
pub mod History
pub mod Generated
pub mod Resolved
pub mod Compared
pub mod Assigned
pub mod Unresolved
pub mod Assemble
