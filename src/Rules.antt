-- ===== src/Rules.antt =====
-- The detection engine (backend/internal/rules): its configuration, the evaluation of rules, the
-- alerts that it raises, and the rules that users define.
pub mod Types
pub mod Config
pub mod Spec
pub mod Custom
pub mod Evaluate
pub mod Engine
pub mod Accepted
pub mod Timing
pub mod Overrides
pub mod Findings
pub mod Runs
pub mod Due
pub mod Names
pub mod Saved
pub mod Updates
pub mod Reach
pub mod Sample
mod Tests
mod RunTests
mod SpecTests
