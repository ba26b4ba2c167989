-- ===== src/Adapter.antt =====
-- internal/server/protocol/binary.go, the type `BinaryProtocolAdapter`: its state, its constructor
-- and the actions that its methods are made of. A method is an action: it changes the adapter,
-- makes calls and writes that come back as a list of events, and returns, fails, blocks on a lock
-- that its own goroutine holds, panics or never ends.
pub mod Receive
pub mod Deadlock
pub mod Part
pub mod Steps
pub mod Delivery
pub mod Send
pub mod Register
pub mod Sending
pub mod Window
mod Tests
use inlets.Common.{
  ℕ, ◌*◌, List, [], ◌∷◌, ◌++◌, Bool, true, false, ◌||◌, Option, none, some, Bytes, Bytes-discrete,
  codes, ◌==◌, if◌then◌else◌, ite, Outcome, ok, err, panic,
}
use inlets.Common.Int.{ℤ, pos}
use inlets.Common.Dict.{Dict}
use inlets.Stream.{Fault}
use inlets.Manager.{StreamManager, new_stream_manager}
use inlets.Flow.{FlowController, new_flow_controller}
use inlets.Wire.{WireError}
use inlets.Protocol.{Capabilities, Features, CompressionCaps, Codec, has_bit}
use inlets.Protocol.MessageType
use inlets.Protocol.Capability

-- The `OnComplete` closures that the adapter makes, with what they capture. A handler is known by
-- a number. An HTTP closure captures the message type, which decides about compression.
pub data Callback : Type 0 where
  http_callback : ℕ → ℕ → Callback
  tcp_callback : List ℕ → Callback

-- Where a frame is written: to the monitor connection, as base64 in a JSON text with an event name
-- and the stream id, to the shared data connection, or to the data connection of a stream.
pub data Channel : Type 0 where
  monitor : Bytes → Bytes → Channel
  shared_data : Channel
  stream_data : ℕ → Channel

-- What others see of the adapter: a call of a handler with the stream id and the data (of a head
-- or a body chunk, with FIN too), or a write.
pub data Event : Type 0 where
  handled : ℕ → Bytes → Bytes → Event
  handled_part : ℕ → Bytes → Bytes → Bool → Event
  tcp_closed : ℕ → Bytes → Event
  wrote : Channel → Bytes → Event

pub data AdapterError : Type 0 where
  codec_failed handler_failed no_handler no_tcp_handlers : AdapterError
  data_channel_not_ready flow_timeout write_failed : AdapterError
  malformed : WireError → AdapterError

pub data Reply {ℓ} (A : Type ℓ) : Type ℓ where
  returns : A → Reply A
  fails : AdapterError → Reply A
  -- waits for a lock that the goroutine itself holds
  deadlocks : Reply A
  panics : Reply A
  diverges : Reply A

-- Connections and handlers are known by numbers; `data_conn` says whether the shared data
-- connection is there. `writes` tells of the writes to come whether they succeed; those after its
-- end do.
pub record Adapter : Type 0 where
  pub is_client : Bool
  pub flags : ℕ
  pub compression_algorithm : Bytes
  pub chunk_size : ℤ
  pub stream_manager : Option (StreamManager Callback)
  pub flow_controller : Option FlowController
  pub http_request_handler : Option ℕ
  pub http_response_handler : Option ℕ
  pub http_request_head_handler : Option ℕ
  pub http_request_body_handler : Option ℕ
  pub http_response_head_handler : Option ℕ
  pub http_response_body_handler : Option ℕ
  pub tcp_data_handlers : Dict ℕ ℕ
  pub tcp_close_handlers : Dict ℕ ℕ
  pub handler_id_counter : ℕ
  pub tcp_close_handler_id_counter : ℕ
  pub sequence_counter : Dict Bytes ℕ
  pub data_conn : Bool
  pub data_channels : Dict Bytes ℕ
  pub writes : List Bool

-- the preferred algorithm, else the first of the list, else brotli
unfoldable pub algorithm_of : Option CompressionCaps → Bytes
algorithm_of none = codes "brotli"
algorithm_of (some c) = elim c.preferred [
  | _ ∷ _ ↦ c.preferred
  | [] ↦ elim c.algorithms [ [] ↦ codes "brotli" | first ∷ _ ↦ first ]
]

abbrev feature : {A : Type 0} → (Features → Option A) → Option Features → Option A
feature f none = none
feature f (some features) = f features

abbrev or_default : {A : Type 0} → A → Option A → A
or_default d none = d
or_default d (some x) = x

abbrev default_chunk : Features → Option ℤ
default_chunk f = elim f.chunk_size [ none ↦ none | some c ↦ some c.default_size ]

unfoldable pub new_binary_protocol_adapter : Capabilities → Bool → Adapter
unfolding algorithm_of
new_binary_protocol_adapter caps is_client =
    let chunk_size = or_default (pos (64 * 1024)) (feature default_chunk caps.features) in
    let window = or_default (pos (1024 * 1024)) (feature (λ f. f.window_size) caps.features) in
    record {
      is_client = is_client;
      flags = caps.flags;
      compression_algorithm = algorithm_of (feature (λ f. f.compression) caps.features);
      chunk_size = chunk_size;
      stream_manager =
          if has_bit Capability.streaming caps.flags
          then some (new_stream_manager chunk_size)
          else none;
      flow_controller =
          if has_bit Capability.flow_control caps.flags
          then some (new_flow_controller window true)
          else none;
      http_request_handler = none;
      http_response_handler = none;
      http_request_head_handler = none;
      http_request_body_handler = none;
      http_response_head_handler = none;
      http_response_body_handler = none;
      tcp_data_handlers = [];
      tcp_close_handlers = [];
      handler_id_counter = 0;
      tcp_close_handler_id_counter = 0;
      sequence_counter = [];
      data_conn = false;
      data_channels = [];
      writes = [];
    }

abbrev pub Exec : Type 0 → Type 0
Exec A = Adapter → Reply A × Adapter × List Event

abbrev pub continue : {A B : Type 0} → Reply A → (A → Exec B) → Exec B
continue (returns x) f a = f x a
continue (fails e) f a = (fails e, a, [])
continue deadlocks f a = (deadlocks, a, [])
continue panics f a = (panics, a, [])
continue diverges f a = (diverges, a, [])

infixl 5 ◌>>=◌ ◌>>◌
abbrev pub ◌>>=◌ : {A B : Type 0} → Exec A → (A → Exec B) → Exec B
◌>>=◌ m f a =
    let (r, a', events) = m a in let (r', a'', more) = continue r f a' in (r', a'', events ++ more)

abbrev pub ◌>>◌ : {B : Type 0} → Exec (Unit {0}) → Exec B → Exec B
m >> k = m >>= λ _. k

abbrev pub pure : {A : Type 0} → A → Exec A
pure x a = (returns x, a, [])

abbrev pub done : Exec (Unit {0})
done a = (returns tt, a, [])

abbrev pub fail : {A : Type 0} → AdapterError → Exec A
fail e a = (fails e, a, [])

abbrev pub deadlock : {A : Type 0} → Exec A
deadlock a = (deadlocks, a, [])

abbrev pub get_adapter : Exec Adapter
get_adapter a = (returns a, a, [])

abbrev pub set_stream_manager : StreamManager Callback → Exec (Unit {0})
set_stream_manager sm a = (returns tt, record a { stream_manager = some sm }, [])

abbrev pub set_flow_controller : FlowController → Exec (Unit {0})
set_flow_controller fc a = (returns tt, record a { flow_controller = some fc }, [])

abbrev pub emit : Event → Exec (Unit {0})
emit e a = (returns tt, a, e ∷ [])

-- A method of a stream or of the stream manager. Running out of the model's fuel is a loop that
-- never ends.
abbrev pub lift : {A : Type 0} → Outcome Fault A → Exec A
lift (ok x) a = (returns x, a, [])
lift (err e) a = (diverges, a, [])
lift panic a = (panics, a, [])

abbrev pub lift_wire : {A : Type 0} → Outcome WireError A → Exec A
lift_wire (ok x) a = (returns x, a, [])
lift_wire (err e) a = (fails (malformed e), a, [])
lift_wire panic a = (panics, a, [])

abbrev pub or_codec_failed : {A : Type 0} → Option A → Exec A
or_codec_failed (some x) a = (returns x, a, [])
or_codec_failed none a = (fails codec_failed, a, [])

unfoldable pub should_use_compression : ℕ → ℕ → Bool
should_use_compression flags t =
    if (t == MessageType.tcp_data) || (t == MessageType.tcp_close)
    then false
    else has_bit Capability.compression flags

unfoldable pub should_use_streaming : ℕ → ℕ → Bool
should_use_streaming flags t =
    if t == MessageType.http_request
    then has_bit Capability.http_streaming flags
    else if t == MessageType.http_response
    then has_bit Capability.http_streaming flags
    else false

-- an algorithm of another name leaves the data as they are
unfoldable pub decompress_data : Codec → Bytes → Bytes → Option Bytes
decompress_data codec algorithm payload =
    ite (Bytes-discrete algorithm (codes "brotli")) (codec.decompress_brotli payload)
      (ite (Bytes-discrete algorithm (codes "gzip")) (codec.decompress_gzip payload) (some payload))

unfoldable pub compress_data : Codec → Bytes → Bytes → Option Bytes
compress_data codec algorithm payload =
    ite (Bytes-discrete algorithm (codes "brotli")) (codec.compress_brotli payload)
      (ite (Bytes-discrete algorithm (codes "gzip")) (codec.compress_gzip payload) (some payload))
