-- ===== src/Engine.antt =====
-- src/engine.rs and src/engine/: the workspace that the engine thread owns, and what it does with it.
pub mod Host
pub mod Workspace
pub mod Timing
pub mod Invariant
pub mod Order
pub mod Io
pub mod Tick
pub mod Update
pub mod Mirror
