-- ===== src/Lib.antt =====
-- inlets carries HTTP and TCP traffic from a public server to a client behind a firewall, over a
-- monitor connection and data connections (websockets). This library models the binary protocol that
-- both ends speak there (internal/server/protocol/binary.go, stream_manager.go and
-- flow_controller.go beside it, and the client's own codec in internal/client/utils.go), how the
-- server lets a client in, what it keeps of its clients, and how the client matches the tunnels that
-- it opens with the server's configuration.
--
-- The way of a message. It becomes a frame (Wire). A large HTTP message is compressed, cut into chunks
-- with sequence numbers from 0 and a FIN flag on the last (Manager), and each chunk waits for the send
-- window of its stream (Flow.Wait). The receiver's adapter (Adapter.Receive) takes a frame off the
-- receive window (Flow), finds or makes the stream (Manager), adds the chunk (Stream), and calls a
-- handler when the message is whole. The flow controller calls back into the adapter, which pauses
-- and resumes streams.
--
-- The way of a client. It asks to be let in (Monitor.Auth). The server finds its secret (Config),
-- checks its signature, its clock and its version (Monitor.Policy), agrees with it on the protocol
-- (Monitor.Negotiation), and writes it into the tables (Registry.Tunnels, Registry.Domains), from
-- which handleDisconnect removes it. A request for the client registers a callback for its answer
-- (Registry.Callbacks). What passes is limited (Limiter) by the rates of the configuration and
-- counted (Stats).
--
--   Common            lists, keys, maps, integers and results that the other files share
--   Common.Text       what the program uses of Go's strings and strconv, on ASCII
--   Wire              binary.go: BuildBinaryMessage (build_binary_message), ParseBinaryMessage
--                     (parse_binary_message); internal/client/utils.go: buildBinaryMessage,
--                     parseBinaryMessage (client_...)
--   Flow              flow_controller.go: a method of FlowController is the function of its name
--   Flow.Wait         binary.go: waitFlowSendSlot
--   Stream            stream_manager.go, type Stream: AddChunk, tryReassemble, Pause, Resume, Destroy
--   Manager           stream_manager.go, type StreamManager: SplitIntoChunks, CreateStream,
--                     EnsureStream, GetStream, AddChunk, RemoveStream, cleanup, Destroy
--   Transfer          the splitter and the reassembly together
--   Protocol          the codes of binary.go and the capabilities of internal/client/types.go
--   Adapter           binary.go: BinaryProtocolAdapter, its constructor, and actions on it
--   Adapter.Receive   binary.go: HandleBinaryMessage and what it calls
--   Adapter.Send      binary.go: SendHTTPRequest, SendHTTPResponse, SendTCPData, the methods for
--                     heads and bodies (send_semantic), and what they call
--   Adapter.Register  binary.go: the On... methods, the data channels, Destroy
--   Session           a sending and a receiving adapter, and a network between them
--   Registry          internal/server/container: callback.go (Callbacks), domain.go (Domains) and
--                     tunnel.go (Tunnels)
--   Client            internal/client/types.go: TunnelSpec and the records beside it
--   Client.Upstream   internal/client/upstream.go: ParseUpstream
--   Client.TunnelSpecs
--                     internal/client/tunnel_spec_auth.go and child_options.go
--   Limiter           internal/server/limiter/bandwidth.go
--   Stats             internal/server/stats/traffic.go
--   Monitor.Negotiation
--                     internal/server/channels/monitor/helpers.go
--   Monitor.Policy    internal/server/channels/monitor/auth.go, the rules, and the comparison of
--                     versions of internal/server/utils/utils.go
--   Monitor.Auth      auth.go: handleAuthenticate and handleDisconnect
--   Legacy            internal/server/protocol/legacy.go and internal/legacytunnel/codec.go: what
--                     clients without capabilities speak
--   Config            internal/server/config: validate.go, token.go, and BuildBandwidthLimits of
--                     reload.go
--
-- State and time. A struct is a record, a nil pointer or map is none, a Go map is an association
-- list whose order is the order of iteration. A method that holds its lock from start to end is a
-- function of the state. Callbacks come back as data: Flow lists the calls of onBackpressure, Stream
-- the call of OnComplete, Manager the calls of OnError, Adapter the calls of handlers. In Adapter an
-- action also says when the goroutine waits for a lock that it holds itself. Times are arguments;
-- where an operation reads the clock more than once (Limiter, Stats), a function gives the readings.
-- Other goroutines are a list of calls between two steps (Flow.run) or between two polls
-- (Flow.Wait.Environment); the operations of Limiter, Stats and Monitor.Auth are not interleaved.
--
-- Numbers. Bytes are numbers below 256 where a theorem asks for it; a uint32 wraps at 2 ^ 32; int and
-- int64 are integers without their 64-bit range, which windows and chunk sizes do not come near. The
-- float64 of the limiter is a type with operations, of which the theorems assume laws of IEEE 754.
--
-- Bounds. try_reassemble runs on fuel, one round for each entry of the map and one more, since each
-- round removes an entry. wait_loop runs on one poll for each 5 ms of the 60 s and two more, 5 ms
-- being the shortest pause. split_into_chunks takes its fuel as an argument, one round for each byte
-- and one more being enough for a positive chunk size.
--
-- Parameters. The compressors (brotli, gzip) are the record Codec; that they can be undone is a
-- hypothesis of the theorems that need it. The handlers and the connections are numbers, the outcomes
-- of the writes to come a list, and a test on the call says whether a handler returns an error; that a
-- handler calls back into the adapter is not modelled. The signature (HMAC), time.ParseDuration, the
-- new identifiers and the token function that a tunnel keeps are parameters too, without laws. In
-- Legacy, base64 is one as well. In Limiter, the arithmetic of float64 is the record Float64, and the
-- theorems assume of it the laws IsIeee, those of IEEE 754 that they need.
--
-- Not modelled: the read loops over the websockets, the ticker that calls cleanup, the relaying of
-- HTTP and TCP traffic by the server's tunnels, the client's connection and its handlers, the data
-- channels, the answers that the monitor routes to callbacks, the administration, the loading and
-- saving of the configuration, and notifications. JSON and the sockets are I/O of libraries.
pub mod Common
pub mod Wire
pub mod Flow
pub mod Stream
pub mod Manager
pub mod Transfer
pub mod Protocol
pub mod Adapter
pub mod Session
pub mod Registry
pub mod Client
pub mod Limiter
pub mod Stats
pub mod Monitor
pub mod Config
pub mod Legacy
