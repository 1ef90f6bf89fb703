-- ===== src/Lib.antt =====
-- A virtual-space service in which the clients of a room hear, see and follow one another: the
-- signalling core of its api server, and the class that stands for a user in the client.
--
-- frame/libs/signalRouter.ts keeps the connections of the ingress, egress and movement servers,
-- the regions in which they stand, their loads, the pipes between them, and the routing table that
-- says which servers serve a room. frame/libs/peerConnectionManager.ts keeps the peers (clients),
-- the rooms and their counters, and answers the clients' commands; it makes its requests to the
-- media servers through the router, and hands the router two callbacks: `createConsumerMessages`,
-- which the router calls when a media server has a new producer, and `dropRoute`, which it calls
-- first when the connection of a media server closes.
--
-- frame/webapp/core/avatar.ts is the other end of the signalling: it sends those commands, takes
-- the signals that answer them, makes transports, producers and consumers of mediasoup-client, and
-- keeps a connection to a movement server. frame/webapp/core/movementProtocol.ts writes the packets
-- in which a client sends the movement of its avatar; the server joins them, and avatar.ts takes
-- them apart again.
--
-- Files:
--   Types, State     the records of peerTypes.ts and signalRouterTypes.ts, the messages, and the
--                    state that the two classes of the server share
--   SignalRouter     Servers, Regions, Router (selection of a server, routing table), Requests (what is
--                    written to which server), Receive (the decoder's callback), Kinds and Close (the
--                    close handler); Selection, Served, Interconnect, Cleanup and LastServer hold
--                    what is proved of them
--   PeerConnectionManager
--                    Peers, Counts, Joining, Leaving, Transports, Consumers, Producers, Announcements,
--                    Disconnect, Command (one function for each method, in the order of the file, and
--                    the whole `switch` of `command`); Invariant, Agreement, DropRoute, Audience, Told,
--                    Identity, Statistics, Failures, Entrance, Departure, Disconnection, Stale and
--                    Stranded hold what is proved of them
--   Movement         frame/webapp/core/movementProtocol.ts: Fields (the enums), Transport (setMovement,
--                    clearBuffer, the timer's callback), Timer (the start and stop of the timer),
--                    Json (movementToJSON); Layout, Reading, RoundTrip and Clearing hold what is
--                    proved of them
--   Avatar           frame/webapp/core/avatar.ts: State (the fields and what leaves the class),
--                    Packets (joined movement packets), MovementServer (the connection and its
--                    retries), Signals (incomingSignal), Tasks (what follows its awaits), Consumers
--                    (muting and closing), Media (addMedia, setMediaState), ScreenMedia
--                    (addScreenMedia), Sources (the stop and change of a media source), Participation
--                    (connect, participate, the handlers of the transports), Sending (the two
--                    sendMovement of participate), FrameEvents, Leaving (leaveFrame, leaveCleanup),
--                    Events (the whole as a sequence of events); Muting, Closing, Departure, Screens,
--                    Consuming, Reconnecting, Stale and the children of Packets and Sending hold what
--                    is proved of them
--   Session          frame/bin/api.ts, where it forwards messages: Messages (a client's requests as
--                    commands of the manager, and its replies as signals); Leaving, Parting, Farewell
--                    and Entering hold what is proved of a client and the server together
--   Prelude          JavaScript's maps, lists by position, counters, truth values and timers
--
-- The names are those of the source, in another spelling: `joinRoom` is `join_room`. A method of
-- the manager that only calls the method of the router of the same name has another name:
-- `resumeProducer` of the manager is `unmute_producer`, `restartIce` is `restart_peer_ice`,
-- `producerClose` is `close_peer_producer`, `createAudioProducer` and `createVideoProducer` are
-- `create_media`.
--
-- State is passed on explicitly. A method of the router is a function from states to states, or
-- the list of what it sends; a command of the manager, the callback `dropRoute` and the close
-- handler are `Action`s, whose outcome `thrown` stands for a TypeError and holds the state as it
-- then is, since nothing is rolled back. What leaves the process (a write to a connection,
-- `process.send`, the calls of the module frameSettings) is appended to `trace`. The peer objects
-- and rooms are shared by reference in the source; the model stores them back where the source
-- changes them. The identity of a socket, of a timer and of a media producer is a number. An order
-- of events is a list of `Event`.
--
-- In the client, an asynchronous method runs as far as its first await and leaves a `Task`. An
-- event resumes a task whose condition holds (`waitFor`), or fulfils or rejects the promise that
-- it awaits; the tasks may go on in any order. The objects of mediasoup-client are numbers, which
-- the promises hand over. A call of a handler, of a method of these objects, and of the page is
-- appended to the trace of effects, and a handler that is not set has no other effect than that
-- the call is not made. An empty text stands for an id that is undefined where the source tests the
-- two alike. Screen consumers and producers stand in arrays under keys that are no index, and
-- `is_index` says what `length` and `forEach` see of them. The flag `lobby` of the client's store
-- is a field of the avatar.
--
-- Between the two, the websocket servers hand on what is sent for a websocket in its order, and the
-- client reads from a reply the fields that it uses.
--
-- Every loop runs over a list, so that no fuel is needed, but for the loop that takes joined
-- packets apart: it runs on as much fuel as the buffer has bytes, and each round takes one byte at
-- least.
--
-- Parameters: what uuid4 returns is an argument of `create_peer`; the callback `dropServer_cb` is
-- a `DropServer`, of which the router relies on one law, that it leaves the router's own state
-- alone; `DropRoute.drop_server` is the manager's method with that law.
--
-- A movement packet gives the byte at each offset, and a header is its sixteen bits as a natural
-- number, whose wrap-around is written out. `Floats` is the parameter for the encodings of
-- DataView and of the package float16, with the law that a number is read back rounded.
--
-- Not modelled: JSON text and the framing of net-buffer; `serverDownReport`, which no code calls;
-- the set-up of the web servers in frame/bin/api.ts and the JavaScript websocket servers; of
-- avatar.ts the setters of handlers, log lines, and the listeners that only log; the client's
-- harness pages and store; values that are only passed on, which are opaque texts. Loads are
-- naturals, as they are only compared. `setProducerState` is asynchronous: the calls are taken one
-- after the other.
pub mod Prelude
pub mod Types
pub mod SignalRouter
pub mod State
pub mod Movement
pub mod Avatar
pub mod PeerConnectionManager
pub mod Session
