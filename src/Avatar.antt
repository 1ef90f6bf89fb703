-- ===== src/Avatar.antt =====
-- frame/webapp/core/avatar.ts: the client.
pub mod Packets
pub mod MovementServer
pub mod State
pub mod Consumers
pub mod Leaving
pub mod Signals
pub mod Media
pub mod ScreenMedia
pub mod Sources
pub mod Participation
pub mod Sending
pub mod Tasks
pub mod FrameEvents
pub mod Events
pub mod Muting
pub mod Closing
pub mod Departure
pub mod Screens
pub mod Reconnecting
pub mod Stale
pub mod Consuming
pub mod Tests
