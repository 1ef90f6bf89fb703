-- ===== src/PeerConnectionManager.antt =====
-- frame/libs/peerConnectionManager.ts: peers, rooms, and the handlers of the clients' commands.
pub mod Peers
pub mod Counts
pub mod Joining
pub mod Leaving
pub mod Transports
pub mod Consumers
pub mod Producers
pub mod Announcements
pub mod Disconnect
pub mod Command
pub mod Invariant
pub mod DropRoute
pub mod Audience
pub mod Identity
pub mod Statistics
pub mod Failures
pub mod Entrance
pub mod Departure
pub mod Disconnection
pub mod Stale
pub mod Stranded
pub mod Tests
pub mod Told
pub mod Agreement
