-- ===== src/Nexus.antt =====
-- tools/nexus_live_adapter.py: what the federation takes over of a verified NEXUS world export.
pub mod Source
pub mod Export
pub mod Council
pub mod Members
pub mod Safe
pub mod Projection
pub mod Verified
