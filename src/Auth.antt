-- ===== src/Auth.antt =====
-- Tokens and rate limits: internal/auth.
pub mod Tokens
pub mod Pairs
pub mod Limits
pub mod Windows
pub mod Credentials
pub mod Parsing
pub mod RoomTokens
