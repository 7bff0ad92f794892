-- ===== src/Signaling.antt =====
-- The signaling service: its session store, its messages and its hub.
pub mod Store
pub mod Message
pub mod Client
pub mod Handler
pub mod Server
pub mod Entry
pub mod Admission
pub mod Hub
