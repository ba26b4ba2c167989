-- ===== src/Adapter/Tests.antt =====
-- The receiving side at concrete inputs, with a codec that puts a mark in front of the data.
use inlets.Common.{
  ℕ, zero, suc, ◌<◌, ◌≡◌, refl, inl, List, [], ◌∷◌, Bool, true, false, Option, some, none, Bytes,
  bytes_key, ℕ_key, Bytes-discrete, ℕ_discrete, codes, All, arith,
}
use inlets.Common.Int.{pos, ◌≤ℤ◌}
use inlets.Common.Dict
use inlets.Stream.Reassembly.{Part, IsPart}
use inlets.Stream.Arrival.{Arrived}
use inlets.Manager.{StreamManager, new_stream_manager, get_stream}
use inlets.Flow.{FlowController, new_flow_controller}
use inlets.Protocol.{Capabilities, Codec, has_bit}
use inlets.Protocol.Capability
use inlets.Protocol.MessageType
use inlets.Adapter.{
  Adapter, Callback, http_callback, Event, handled, tcp_closed, no_handler, returns, fails,
  deadlocks, new_binary_protocol_adapter, algorithm_of, should_use_compression,
  should_use_streaming, decompress_data,
}
use inlets.Adapter.Receive.{
  handle_parsed, decompressed, take_from_window, route, open_stream, choose_callback,
  message_handler, is_semantic,
}
use inlets.Adapter.{compress_data, shared_data, data_channel_not_ready}
use inlets.Adapter.Send.{compressed, send_streaming, send_tcp_data}
use inlets.Adapter.Window.{taken, direct_request_keeps_window}
use inlets.Flow.{window_of}
use inlets.Adapter.Sending.{numbered, all_wrote, send_streaming-numbered}
use inlets.Manager.{effective_size}
use inlets.Manager.Chunks.{IsSplit}
use inlets.Adapter.Deadlock.{only_frame, first_request_deadlocks}
use inlets.Adapter.Part.{handle_parts}
use inlets.Adapter.Delivery.{request_handled_once}

abbrev mark : Bytes → Option Bytes
mark xs = some (66 ∷ xs)

abbrev unmark : Bytes → Option Bytes
unmark [] = none
unmark (_ ∷ xs) = some xs

abbrev marking : Codec
marking = record {
  compress_brotli = mark;
  decompress_brotli = unmark;
  compress_gzip = mark;
  decompress_gzip = unmark;
}

abbrev accepts_all : Event → Bool
accepts_all _ = false

-- compression, streaming, flow control and HTTP streaming
abbrev caps : Capabilities
caps = record { flags = 46; version = []; features = none }

-- handler 4 takes the requests
abbrev client : Adapter
client = record (new_binary_protocol_adapter caps true) { http_request_handler = some 4 }

abbrev manager : StreamManager Callback
manager = new_stream_manager (pos 3)

abbrev controller : FlowController
controller = new_flow_controller (pos 100) true

no_streams : get_stream manager (codes "r") ≡ none
unfolding get_stream new_stream_manager Dict.get
no_streams = refl

opened : manager.streams ≡ some []
unfolding new_stream_manager
opened = refl

no_window : Dict.get (codes "r") controller.windows ≡ none
unfolding new_flow_controller Dict.get
no_window = refl

decompresses :
    decompressed marking client MessageType.http_request (codes "Bonetwo") ≡ some (codes "onetwo")
unfolding decompressed decompress_data should_use_compression new_binary_protocol_adapter
    algorithm_of Bytes-discrete ℕ_discrete
decompresses = refl

first_request_deadlocks_example :
    (a' : Adapter) × (handle_parsed marking accepts_all 9
        (only_frame (codes "r") (codes "Bonetwo"))
        (record client { stream_manager = some manager; flow_controller = some controller })
      ≡ (deadlocks, a', handled 4 (codes "r") (codes "onetwo") ∷ []))
unfolding new_binary_protocol_adapter new_flow_controller
first_request_deadlocks_example =
    first_request_deadlocks marking accepts_all client manager [] controller (codes "r")
      (codes "Bonetwo") (codes "onetwo") 4 9 99 refl refl refl opened no_streams refl no_window refl
      decompresses

abbrev parts : List Bytes
parts = codes "Bon" ∷ codes "et" ∷ codes "wo" ∷ []

abbrev part : ℕ → Bytes → Bool → ℕ → Part
part n payload is_last now = record {
  sequence = n;
  payload = payload;
  is_last = is_last;
  arrival = now;
}

-- the last part first, and the middle one twice
abbrev out_of_order : List Part
out_of_order =
    part 2 (codes "wo") true 10
    ∷ part 1 (codes "et") false 11
    ∷ part 1 (codes "et") false 12
    ∷ part 0 (codes "Bon") false 13
    ∷ []

out_of_order-IsPart :
    All (IsPart {C = Callback} parts (http_callback MessageType.http_request 4)) out_of_order
out_of_order-IsPart = (
  record { found = refl; last = refl },
  (
    record { found = refl; last = refl },
    (record { found = refl; last = refl }, (record { found = refl; last = refl }, tt)),
  ),
)

all-Arrived : (i : ℕ) → i < 3 → Arrived i out_of_order
all-Arrived zero h = ground arith
all-Arrived (suc zero) h = ground arith
all-Arrived (suc (suc zero)) h = ground arith
all-Arrived (suc (suc (suc i))) h = absurd (omega arith)

request_handled_once_example :
    (sm' : StreamManager Callback) × (handle_parts marking accepts_all
        (codes "r")
        out_of_order
        (record client { stream_manager = some manager; flow_controller = none })
      ≡ (
        returns tt,
        record client { stream_manager = some sm'; flow_controller = none },
        handled 4 (codes "r") (codes "onetwo") ∷ [],
      ))
unfolding new_binary_protocol_adapter
request_handled_once_example =
    request_handled_once marking accepts_all client manager [] (codes "r") 4 parts (codes "onetwo")
      out_of_order refl refl refl opened no_streams (omega arith) (omega arith) out_of_order-IsPart
      all-Arrived decompresses

-- A request that is streamed to a client without a handler is an error.
abbrev without_handler : Adapter
without_handler = record client {
  http_request_handler = none;
  stream_manager = some manager;
  flow_controller = none;
}

streaming_needs_handler :
    handle_parsed marking accepts_all 9 (only_frame (codes "r") (codes "x")) without_handler
    ≡ (fails no_handler, without_handler, [])
unfolding handle_parsed take_from_window route is_semantic should_use_streaming open_stream
    choose_callback message_handler new_binary_protocol_adapter new_stream_manager get_stream
    Dict.get
streaming_needs_handler = refl

-- `TestHandleBinaryMessage_TCPCloseInvokesOnTCPClose`
abbrev closing : Adapter
closing = record client { tcp_close_handlers = (0, 5) ∷ (3, 6) ∷ [] }

tcp_close_calls_handlers :
    handle_parsed marking accepts_all 9
      (record (only_frame (codes "t") []) { message_type = MessageType.tcp_close })
      closing
    ≡ (returns tt, closing, tcp_closed 5 (codes "t") ∷ tcp_closed 6 (codes "t") ∷ [])
unfolding handle_parsed
tcp_close_calls_handlers = refl

-- A server that sends "onetwo", seven bytes with the mark, in chunks of three.
abbrev sender : Adapter
sender = record (new_binary_protocol_adapter caps false) { chunk_size = pos 3 }

compresses :
    compressed marking sender MessageType.http_request (codes "onetwo") ≡ some (codes "Bonetwo")
unfolding compressed compress_data should_use_compression new_binary_protocol_adapter algorithm_of
    Bytes-discrete ℕ_discrete
compresses = refl

three_bytes : effective_size manager sender.chunk_size ≡ pos 3
unfolding effective_size
three_bytes = refl

send_streaming-numbered_example :
    (chunks : List Bytes) × IsSplit (codes "Bonetwo") 3 chunks
    × (send_streaming marking
          (λ n k. (0, []))
          shared_data
          manager
          MessageType.http_request
          (codes "r")
          (codes "onetwo")
          (record sender { flow_controller = none; writes = [] })
        ≡ (
          returns tt,
          record sender { flow_controller = none; writes = [] },
          all_wrote shared_data (numbered MessageType.http_request (codes "r") chunks 0),
        ))
send_streaming-numbered_example =
    send_streaming-numbered marking (λ n k. (0, [])) shared_data MessageType.http_request
      (codes "r") (omega arith) sender manager (codes "onetwo") (codes "Bonetwo") 2 compresses
      three_bytes

-- `TestSendTCPData_ReturnsErrorWhenTCPOverWSHasNoDataChannel`
abbrev over_ws : Adapter
over_ws =
    record (new_binary_protocol_adapter (record { flags = 64; version = []; features = none })
      false) { data_conn = false }

tcp_needs_channel :
    send_tcp_data marking (λ n k. (0, [])) (codes "t") (codes "x") over_ws
    ≡ (fails data_channel_not_ready, over_ws, [])
unfolding send_tcp_data new_binary_protocol_adapter Dict.get
tcp_needs_channel = refl

-- HTTP streaming was not negotiated, and there is a stream manager.
abbrev unstreamed : Adapter
unstreamed =
    record (record (new_binary_protocol_adapter
      (record { flags = 14; version = []; features = none }) true) {
        http_request_handler = some 4;
      }) { stream_manager = some manager; flow_controller = some controller }

unstreamed_decompresses :
    decompressed marking unstreamed MessageType.http_request (codes "Bonetwo")
    ≡ some (codes "onetwo")
unfolding decompressed decompress_data should_use_compression new_binary_protocol_adapter
    algorithm_of Bytes-discrete ℕ_discrete
unstreamed_decompresses = refl

no_http_streaming : has_bit Capability.http_streaming unstreamed.flags ≡ false
unfolding new_binary_protocol_adapter
no_http_streaming = refl

seven_fit : pos 7 ≤ℤ (window_of controller (codes "r")).receive_window
unfolding window_of new_flow_controller Dict.get
seven_fit = omega arith

direct_request_keeps_window_example :
    handle_parsed marking accepts_all 9
      (record {
        message_type = MessageType.http_request;
        stream_id = codes "r";
        sequence = 1;
        flags = 0;
        payload = codes "Bonetwo";
      })
      unstreamed
    ≡ (
      returns tt,
      record unstreamed { flow_controller = some (taken controller (codes "r") 7) },
      handled 4 (codes "r") (codes "onetwo") ∷ [],
    )
unfolding new_binary_protocol_adapter
direct_request_keeps_window_example =
    direct_request_keeps_window marking unstreamed accepts_all 9 controller (codes "r")
      (codes "Bonetwo") (codes "onetwo") 1 0 4 (inl no_http_streaming) refl seven_fit refl refl
      unstreamed_decompresses refl
