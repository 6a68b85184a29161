-- ===== src/Explain.antt =====
-- The assessment of a program from the facts gathered about it (backend/internal/explain/explain.go,
-- `Assess`).
pub mod Types
pub mod Facts
pub mod Program
pub mod Peers
pub mod Assess
pub mod Causes
pub mod Spoken
pub mod Network
pub mod KnowledgeBase
pub mod Services
pub mod Verify
pub mod Sources
pub mod Gather
pub mod Build
pub mod Built
pub mod Levels
pub mod Order
mod Tests
