-- ===== src/Livekit.antt =====
-- The LiveKit SFU: internal/livekit. The SDK is a parameter: what its calls return, and whether a
-- webhook's signature is valid.
pub mod Webhook
pub mod Bus
pub mod Room
