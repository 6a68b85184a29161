-- ===== src/Agents.antt =====
-- Enrolled agents and what they report (backend/internal/db/agents.go and identity.go, and
-- backend/internal/api/agents.go).
pub mod Rows
pub mod Store
pub mod Reports
pub mod Ingest
pub mod Checks
pub mod Handlers
pub mod Admin
pub mod Keeps
pub mod Tokens
pub mod Steps
pub mod Frames
pub mod Spent
pub mod Once
pub mod Shut
pub mod Sane
pub mod Accounts
mod Tests
