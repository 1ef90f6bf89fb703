-- ===== src/Session.antt =====
-- A client and the api server together: what one of them sends is what the other one takes.
pub mod Messages
mod Leaving
mod Parting
mod Farewell
mod Entering
mod Tests
