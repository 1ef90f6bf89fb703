-- ===== src/SignalRouter.antt =====
-- frame/libs/signalRouter.ts: the router of signals between the api server and the media servers.
pub mod Servers
pub mod Regions
pub mod Router
pub mod Requests
pub mod Kinds
pub mod Close
pub mod Receive
pub mod Selection
pub mod Served
pub mod Interconnect
pub mod Cleanup
pub mod LastServer
pub mod Tests
