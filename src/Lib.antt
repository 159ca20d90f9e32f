-- ===== src/Lib.antt =====
-- go-socket.io: engine.io sessions over several transports, and socket.io namespaces, rooms and events on top.
--
-- A transport gives a session the packets of a connection. The polling transport packs several packets into
-- one HTTP body, a payload: engineio/payload has its encoder, its decoder, the hand-over between the goroutines
-- of the requests and of the session (payload.go), and the pauser that stops them for an upgrade. A
-- session (engineio/session/session.go) answers pings and moves from one transport to another. On the messages
-- of a session, parser writes and reads the packets of socket.io, whose handlers (connection_handlers.go)
-- connect and disconnect namespaces, call the user's functions and send acks. broadcast.go keeps the rooms of
-- a namespace, and redis_broadcast.go has several servers tell each other of theirs. The engine's server
-- (engineio/server.go) finds or starts the session of a request, and server.go serves each session as a connection
-- with namespaces until its packets end. client.go is the other
-- end of such a connection.
--
-- The files, and the code that each is about:
--   Prelude, Prelude/Tests, Prelude/Lists  shared names, Boolean tests, lists over native numbers
--   Prelude/Dict       a Go map as an association list
--   Reader             a byte source with `ReadByte` and `UnreadByte`
--   Digits             the loops that write a number digit by digit (encoder.go, util.go)
--   Packet             engineio/frame/frame.go, engineio/packet/packet.go
--   Payload/Lengths    engineio/payload/util.go: `writeTextLen`, `readBinaryLen` and the other two
--   Payload/Units      the code units that `calcCodeUnitLength` counts, and what the decoder counts down
--   Payload/Base64     encoding/base64 and unicode/utf8, as a parameter with laws
--   Payload/Decoder    engineio/payload/decoder.go: `next_reader`, `read_from`, `close`
--   Payload/Encoder    engineio/payload/encoder.go: `next_writer`, `write`, `close`
--   Payload/Stream     packets sent one behind the other, and a client that reads them
--   Payload/Feeder     engineio/payload/payload.go: `feed_in`, `flush_out`, `get`, `put_reader`, `put_writer`
--   Payload/Handover   goroutines in `FeedIn` and that of the decoder, over their steps
--   Payload/Pauser     engineio/payload/pauser.go, as events of a system
--   Session            engineio/session/session.go: `new_session`, `init_session`, `next_reader`
--   Session/Upgrade    `upgrading` of the same file
--   Parser/Header      parser/packet.go and the headers of parser/encoder.go and parser/decoder.go
--   Parser/Values      `attachBuffer`, `detachBuffer` and parser/buffer.go, over the tree of a value
--   Parser/Frames      `Encode`, `DecodeHeader` and `DecodeArgs`: a packet in the frames of a session
--   Broadcast          broadcast.go
--   Namespace          namespaces.go, namespace_handler.go, namespace_conn.go, connection.go
--   Namespace/Handlers connection_handlers.go
--   Namespace/Errors   `serveError` of server.go, and the calls of `OnError`
--   Namespace/Functions handler.go: the users' functions
--   Server             server.go: namespaces, `serve_conn`, `read_loop`
--   Exchange           a connection over its frames: `serveWrite` and `serveRead` of server.go
--   Client             client.go: `new_client`, `connect`, `emit`, `close`, the loops
--   Redis              redis_broadcast.go: `on_message`, `on_request`, `on_response` and the methods
--   Engine             engineio/server.go, session_manager.go, session_id_generator.go, transport/manager.go
--   Redis/Dispatch     the start of a broadcast and its `dispatch`
--   Redis/Options      adapter_options.go and `Adapter` of server.go
--   Engine/Client      engineio/client.go
--   Engine/Params      engineio/transport/parameters.go
--   Engine/Dial        engineio/dialer.go
--   Engine/KeepAlive   a client's pings against its session
--   Polling            engineio/transport/polling/server.go, util.go
--   Polling/Headers    `SetHeaders` of engineio/transport/polling/server.go
--   Polling/Loops      engineio/transport/polling/connect.go
--   Websocket/Readers  the readers of engineio/transport/websocket/wrapper.go
--   Websocket/Owned    the lock of the wrapper as an owner of the connection
--   Websocket          engineio/transport/websocket/wrapper.go, engineio/packet/encoder.go and decoder.go
--   Polling/Timestamp  engineio/transport/utils/clock.go
--   Tests              the theorems at concrete inputs
-- A function keeps the name of the Go function it models, in lower case with underscores.
--
-- State is passed explicitly. A call of code outside the repository, of a transport or of a user's function
-- answers with what an argument says; in Session, Payload/Feeder and Namespace the calls are recorded in order.
-- A loop over a `select` is a function of what its turns come to; where the turns are used up it waits.
-- A method that holds a lock is one step.
--
-- Bounds and fuel: a `uint64` is a number below 2^64 and an `int64` length one below 2^63. The loops that find a
-- number's highest power of ten run on a fuel of `rounds`, which is more than such a number has digits. A client's
-- reads are a list of their sizes, which is long enough where it has more entries than the packet has bytes. A
-- client of a payload has fuel for one round more than there are packets.
--
-- The time stamp of a request is written in 11 rounds, which are enough below 2^63.
--
-- A value that is sent is a tree in which no pointer stands twice, all fields are exported, and no other struct type
-- is named `Buffer`. encoding/json,
-- strconv.FormatUint and mime.ParseMediaType are parameters. The Redis server hands each published message to
-- each subscriber, and what JSON makes of an event is a parameter of Redis/Cluster. What other connections do to the rooms while a connection
-- is served is left out of Server; Broadcast has any order of calls.
--
-- Server and Client take each packet with what the decoder has made of it, in any order with other inputs;
-- Exchange has the same handlers behind the decoder of Parser/Frames. The number of turns of a loop over frames is an
-- argument. The errors of a connection are given out when they have been gathered. The packages
-- net/url and path, and the dialer of the client, are parameters.
--
-- Not modelled: the websocket package and the dials of the transports; other HTTP headers, and addresses;
-- the types of the values that a handler's function gets; `UnmarshalJSON` of a buffer; logging, and time:
-- whether a deadline has passed is an argument.
pub mod Prelude
pub mod Reader
pub mod Digits
pub mod Packet
pub mod Payload
pub mod Parser
pub mod Broadcast
pub mod Session
pub mod Namespace
pub mod Redis
pub mod Engine
pub mod Server
pub mod Exchange
pub mod Client
pub mod Polling
pub mod Websocket
pub mod Tests
