-- ===== src/Core.antt =====
-- scripts/cg_core_v2.py: the projection of a snapshot of observations.
pub mod Kinds
pub mod Model
pub mod Index
pub mod Spans
pub mod Closure
pub mod Units
pub mod Sources
pub mod Requirements
pub mod Facts
pub mod Speech
pub mod Controls
pub mod Targets
pub mod Predicates
pub mod Coverage
pub mod Actions
pub mod Stops
pub mod Project
pub mod Samples
pub mod Snapshots
mod Examples
