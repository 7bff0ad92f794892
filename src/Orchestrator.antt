-- ===== src/Orchestrator.antt =====
-- The session orchestrator: internal/session. Its store over Redis, and what it does with it.
pub mod Store
pub mod Services
pub mod Marks
pub mod Calls
pub mod Rooms
pub mod Closing
pub mod Identity
pub mod Plain
pub mod Api
pub mod Server
pub mod Admitted
