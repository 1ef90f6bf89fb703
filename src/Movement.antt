-- ===== src/Movement.antt =====
-- frame/webapp/core/movementProtocol.ts: the packets of the avatars' movement.
pub mod Fields
pub mod Transport
pub mod Layout
pub mod Reading
pub mod Json
pub mod RoundTrip
pub mod Clearing
pub mod Timer
pub mod Tests
