-- ===== src/Adapter/Receive.antt =====
-- internal/server/protocol/binary.go, `HandleBinaryMessage`: what the adapter does with a frame
-- that arrives. The handlers are code of others: `refuses` tells which of their calls return an
-- error, and a call changes nothing in the adapter. `now` is the time of the arrival.
use inlets.Common.{
  ℕ, List, [], ◌∷◌, Bool, true, false, ◌&&◌, ◌||◌, Option, none, some, Bytes, Bytes-discrete,
  length, ◌==◌, if◌then◌else◌, ite,
}
use inlets.Common.Int.{pos}
use inlets.Common.Dict.{Dict}
use inlets.Stream.{Delivery, pause, resume}
use inlets.Manager.{StreamManager, get_stream, set_stream, ensure_stream, add_chunk}
use inlets.Flow.{Signal, receive, release_receive_window}
use inlets.Wire.{BinaryMessage, parse_binary_message}
use inlets.Protocol.{Codec, has_bit}
use inlets.Protocol.MessageType
use inlets.Protocol.Capability
use inlets.Adapter.{
  Adapter, Callback, http_callback, tcp_callback, Event, handled, handled_part, tcp_closed,
  handler_failed, no_handler, no_tcp_handlers, Exec, ◌>>=◌, ◌>>◌, pure, done, fail, deadlock,
  get_adapter, set_stream_manager, set_flow_controller, emit, lift, lift_wire, or_codec_failed,
  should_use_compression, should_use_streaming, decompress_data,
}

abbrev pub emit_all : List Event → Exec (Unit {0})
emit_all [] = done
emit_all (e ∷ es) = emit e >> emit_all es

abbrev pub calls : (ℕ → Event) → List ℕ → List Event
calls f [] = []
calls f (h ∷ hs) = f h ∷ calls f hs

-- the handlers of a map, in the order of the iteration
abbrev pub handlers_of : Dict ℕ ℕ → List ℕ
handlers_of [] = []
handlers_of ((_, h) ∷ m) = h ∷ handlers_of m

abbrev pub is_held : Option Bytes → Bytes → Bool
is_held none id = false
is_held (some held) id = ite (Bytes-discrete held id) true false

-- `isSemanticHTTPMessageType`
unfoldable pub is_semantic : ℕ → Bool
is_semantic t =
    ((t == MessageType.http_request_head) || (t == MessageType.http_request_body))
    || ((t == MessageType.http_response_head) || (t == MessageType.http_response_body))

unfoldable pub is_head : ℕ → Bool
is_head t = (t == MessageType.http_request_head) || (t == MessageType.http_response_head)

-- the handler that `dispatchSemanticHTTPMessage` calls, if it is there
unfoldable pub part_handler : Adapter → ℕ → Option ℕ
part_handler a t =
    if t == MessageType.http_request_head
    then (if a.is_client then a.http_request_head_handler else none)
    else if t == MessageType.http_request_body
    then (if a.is_client then a.http_request_body_handler else none)
    else if t == MessageType.http_response_head
    then (if a.is_client then none else a.http_response_head_handler)
    else if t == MessageType.http_response_body
    then (if a.is_client then none else a.http_response_body_handler)
    else none

-- the handler of a whole request or response, if it is there
unfoldable pub message_handler : Adapter → ℕ → Option ℕ
message_handler a t =
    if t == MessageType.http_request
    then (if a.is_client then a.http_request_handler else none)
    else if t == MessageType.http_response
    then (if a.is_client then none else a.http_response_handler)
    else none

-- the choice of `onComplete`
unfoldable pub choose_callback : Adapter → ℕ → Exec Callback
choose_callback a t = elim (message_handler a t) [
  | some h ↦ pure (http_callback t h)
  | none ↦
      if t == MessageType.tcp_data
      then (elim (handlers_of a.tcp_data_handlers) [
        | [] ↦ fail no_tcp_handlers
        | h ∷ hs ↦ pure (tcp_callback (h ∷ hs))
      ])
      else fail no_handler
]

module _ (codec : Codec) where
  -- `decompressFunc`
  unfoldable pub decompressed : Adapter → ℕ → Bytes → Option Bytes
  decompressed a t payload =
      if should_use_compression a.flags t
      then decompress_data codec a.compression_algorithm payload
      else some payload

  -- The closure that runs when a message is whole. `release` is its call of
  -- `ReleaseReceiveWindow`. Data that do not decompress are dropped, `onError` being nil.
  unfoldable pub on_complete : (ℕ → Exec (Unit {0})) → Bytes → Delivery Callback → Exec (Unit {0})
  on_complete release id d = elim d.callback [
    | http_callback t h ↦ get_adapter >>= λ a. elim (decompressed a t d.message) [
      | none ↦ done
      | some payload ↦ emit (handled h id payload) >> release (length d.message)
    ]
    | tcp_callback hs ↦
        emit_all (calls (λ h. handled h id d.message) hs) >> release (length d.message)
  ]

  -- `handleBackpressure`, which the flow controller calls with its own lock held. `held` is the
  -- stream whose lock the goroutine holds as well. A message that `Resume` completes is released
  -- to the controller, whose lock is held.
  unfoldable pub handle_backpressure : Option Bytes → Signal → Exec (Unit {0})
  handle_backpressure held g = get_adapter >>= λ a. elim a.stream_manager [
    | none ↦ done
    | some sm ↦ elim (get_stream sm g.stream_id) [
      | none ↦ done
      | some s ↦
          if is_held held g.stream_id
          then deadlock
          else if g.pause
          then lift (set_stream sm g.stream_id (pause s)) >>= set_stream_manager
          else (lift (resume s) >>= λ r. lift (set_stream sm g.stream_id r.0) >>= λ sm'.
              set_stream_manager sm'
              >> elim r.1 [ none ↦ done | some d ↦ on_complete (λ _. deadlock) g.stream_id d ])
    ]
  ]

  unfoldable pub handle_signals : Option Bytes → List Signal → Exec (Unit {0})
  handle_signals held [] = done
  handle_signals held (g ∷ gs) = handle_backpressure held g >> handle_signals held gs

  -- `if a.flowController != nil { a.flowController.ReleaseReceiveWindow(…) }`
  unfoldable pub release : Option Bytes → Bytes → ℕ → Exec (Unit {0})
  release held id size = get_adapter >>= λ a. elim a.flow_controller [
    | none ↦ done
    | some fc ↦
        let (fc', signals) = release_receive_window fc id (pos size) in
        set_flow_controller fc' >> handle_signals held signals
  ]

  -- the call of `Receive`, whose refusal only makes the adapter wait
  unfoldable pub take_from_window : Bytes → ℕ → Exec (Unit {0})
  take_from_window id size = get_adapter >>= λ a. elim a.flow_controller [
    | none ↦ done
    | some fc ↦
        let (fc', _, signals) = receive fc id (pos size) in
        set_flow_controller fc' >> handle_signals none signals
  ]

  -- `EnsureStream` with the closure, for a stream that is not there
  unfoldable pub open_stream : ℕ → StreamManager Callback → Bytes → ℕ → Exec (Unit {0})
  open_stream now sm id t = elim (get_stream sm id) [
    | some _ ↦ done
    | none ↦ get_adapter >>= λ a. choose_callback a t >>= λ callback.
        lift (ensure_stream sm id now (some callback) none) >>= set_stream_manager
  ]

  -- `AddChunk`, with the closure that it calls while it holds the stream's lock
  unfoldable pub add_to_stream : ℕ → BinaryMessage → Bool → Exec (Unit {0})
  add_to_stream now msg is_last = get_adapter >>= λ a. elim a.stream_manager [
    | none ↦ done
    | some sm ↦ lift (add_chunk sm msg.stream_id msg.sequence msg.payload is_last now) >>= λ r.
        set_stream_manager r.0 >> elim r.1 [
          | none ↦ done
          | some d ↦ on_complete (release (some msg.stream_id) msg.stream_id) msg.stream_id d
        ]
  ]

  module _ (refuses : Event → Bool) where
    -- a call of a handler whose error is returned
    unfoldable pub call : Event → Exec (Unit {0})
    call e = emit e >> (if refuses e then fail handler_failed else done)

    unfoldable pub dispatch_semantic : BinaryMessage → Bool → Exec (Unit {0})
    dispatch_semantic msg fin = get_adapter >>= λ a.
        or_codec_failed (
          if is_head msg.message_type && has_bit Capability.compression a.flags
          then decompress_data codec a.compression_algorithm msg.payload
          else some msg.payload)
        >>= λ payload.
            release none msg.stream_id (length msg.payload)
            >> elim (part_handler a msg.message_type) [
              | none ↦ done
              | some h ↦ call (handled_part h msg.stream_id payload fin)
            ]

    -- a message that is not streamed
    unfoldable pub handle_direct : BinaryMessage → Exec (Unit {0})
    handle_direct msg = get_adapter >>= λ a.
        or_codec_failed (decompressed a msg.message_type msg.payload) >>= λ payload.
        elim (message_handler a msg.message_type) [
          | some h ↦ call (handled h msg.stream_id payload)
          | none ↦
              emit_all (
                if msg.message_type == MessageType.tcp_data
                then calls (λ h. handled h msg.stream_id payload) (handlers_of a.tcp_data_handlers)
                else [])
              >> release none msg.stream_id (length msg.payload)
        ]

    -- the part of `handleBinaryMessage` behind the flow control
    unfoldable pub route : ℕ → BinaryMessage → Exec (Unit {0})
    route now msg =
        let is_last = has_bit 0 msg.flags in
        if is_semantic msg.message_type
        then dispatch_semantic msg is_last
        else get_adapter >>= λ a.
            if should_use_streaming a.flags msg.message_type
            then (elim a.stream_manager [
              | none ↦ handle_direct msg
              | some sm ↦
                  open_stream now sm msg.stream_id msg.message_type >> add_to_stream now msg is_last
            ])
            else handle_direct msg

    -- `handleBinaryMessage`
    unfoldable pub handle_parsed : ℕ → BinaryMessage → Exec (Unit {0})
    handle_parsed now msg = get_adapter >>= λ a.
        if msg.message_type == MessageType.tcp_close
        then emit_all (calls (λ h. tcp_closed h msg.stream_id) (handlers_of a.tcp_close_handlers))
        else (take_from_window msg.stream_id (length msg.payload) >> route now msg)

    unfoldable pub handle_binary_message : ℕ → Bytes → Exec (Unit {0})
    handle_binary_message now message =
        lift_wire (parse_binary_message message) >>= handle_parsed now
