-- ===== src/Auth.antt =====
-- Authentication and address control (backend/internal/auth/auth.go, backend/internal/db/auth.go):
-- the tables, the login with its protection against guessing, and the gate before the API.
pub mod Rows
pub mod Accounts
pub mod Attempts
pub mod Login
pub mod Gate
pub mod Lockout
pub mod Access
pub mod Guessing
pub mod Addresses
mod Tests
