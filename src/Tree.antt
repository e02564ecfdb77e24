-- ===== src/Tree.antt =====
-- tools/run_moriarty.py: the objects of git, read by their identifiers and checked against them.
pub mod Objects
pub mod Split
pub mod Collision
pub mod Unique
pub mod Paths
pub mod Valid
pub mod Bounds
pub mod Fuel
pub mod RoundTrip
pub mod Entry
pub mod Bootstrap
pub mod Files
pub mod Worktree
pub mod Clean
pub mod Index
