-- ===== src/Channels.antt =====
-- What the adapters of the customers' channels report about calls (core/channels/ChannelIngress.js).
pub mod Lines
mod Tests
pub mod Announcing
pub mod Apart
pub mod Crossing
pub mod Ringing
pub mod Healing
pub mod Over
pub mod Offered
pub mod Ended
pub mod Progress
