-- ===== src/Suricata.antt =====
-- The ingestion of Suricata's events (backend/internal/suricata/suricata.go).
pub mod Types
pub mod Lines
pub mod Names
pub mod Handle
pub mod Stats
pub mod Table
pub mod Chains
pub mod Keeps
pub mod Used
pub mod Extract
pub mod Ledger
pub mod Shown
pub mod Handlers
pub mod Overlap
pub mod Alone
mod Tests
