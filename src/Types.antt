-- ===== src/Types.antt =====
-- The records and messages of frame/libs/peerTypes.ts and frame/libs/signalRouterTypes.ts.
-- A `Guid` is a text. `Json` is the JSON text of a value that this code only passes on, such as
-- the RTP capabilities, the DTLS parameters or the indicators of an avatar.
mod Peers
mod Messages
pub mod Commands
pub use Peers.*
pub use Messages.*
