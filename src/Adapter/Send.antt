-- ===== src/Adapter/Send.antt =====
-- internal/server/protocol/binary.go, the sending methods of the adapter. `env n` is what the
-- other goroutines do to the flow controller while the chunk with sequence number `n` waits for
-- the send window. The locks of the connections are never held by the sender itself.
use inlets.Common.{
  ℕ, suc, ◌+◌, ◌%◌, ◌^◌, List, [], ◌∷◌, Bool, true, false, ◌&&◌, Option, none, some, Bytes,
  bytes_key, codes, length, ◌==◌, if◌then◌else◌, Outcome, ok, err, panic,
}
use inlets.Common.Int.{pos}
use inlets.Common.Dict
use inlets.Manager.{StreamManager, split_into_chunks}
use inlets.Flow.{initialize_stream}
use inlets.Flow.Wait.{Environment, WaitError, Waited, wait_flow_send_slot}
use inlets.Wire.{BinaryMessage, build_binary_message}
use inlets.Protocol.{Codec, has_bit}
use inlets.Protocol.MessageType
use inlets.Protocol.Capability
use inlets.Adapter.{
  Adapter, Callback, wrote, Channel, monitor, shared_data, stream_data, data_channel_not_ready,
  flow_timeout, write_failed, Exec, ◌>>=◌, ◌>>◌, pure, done, fail, get_adapter, set_flow_controller,
  emit, lift, lift_wire, or_codec_failed, should_use_compression, should_use_streaming,
  compress_data, diverges,
}
use inlets.Adapter.Receive.{is_head, handle_signals}

-- the stream's counter, 0 if it has none
abbrev pub counter : Option ℕ → ℕ
counter none = 0
counter (some n) = n

-- `getNextSequence`
unfoldable pub next_sequence : Bytes → Exec ℕ
next_sequence id a =
    let next = (counter (Dict.get id a.sequence_counter) + 1) % 2 ^ 32 in
    pure next (record a { sequence_counter = Dict.put id next a.sequence_counter })

-- a write to a connection
unfoldable pub write : Channel → Bytes → Exec (Unit {0})
write channel frame a = elim a.writes [
  | [] ↦ emit (wrote channel frame) a
  | success ∷ later ↦
      if success
      then emit (wrote channel frame) (record a { writes = later })
      else fail write_failed (record a { writes = later })
]

-- the event name of a text on the monitor connection
unfoldable pub event_name : ℕ → Bytes
event_name t =
    if t == MessageType.http_request
    then codes "request"
    else if t == MessageType.http_response
    then codes "response"
    else if t == MessageType.tcp_data
    then codes "tcp:data"
    else codes "data"

-- `semanticMonitorEventForType`
unfoldable pub semantic_event_name : ℕ → Bytes
semantic_event_name t =
    if t == MessageType.http_request_head
    then codes "request"
    else if t == MessageType.http_request_body
    then codes "request"
    else if t == MessageType.http_response_head
    then codes "response"
    else if t == MessageType.http_response_body
    then codes "response"
    else codes "data"

abbrev pub fin_flag : Bool → ℕ
fin_flag fin = if fin then 1 else 0

-- the end of a message
abbrev pub is_nil : {A : Type 0} → List A → Bool
is_nil [] = true
is_nil (_ ∷ _) = false

abbrev pub write_message : Channel → BinaryMessage → Exec (Unit {0})
write_message channel msg = lift_wire (build_binary_message msg) >>= write channel

-- the call of `InitializeStream`
unfoldable pub start_window : Bytes → Exec (Unit {0})
start_window id = get_adapter >>= λ a. elim a.flow_controller [
  | none ↦ done
  | some fc ↦ set_flow_controller (initialize_stream fc id [])
]

module _ (codec : Codec) where
  unfoldable pub compressed : Adapter → ℕ → Bytes → Option Bytes
  compressed a t payload =
      if should_use_compression a.flags t
      then compress_data codec a.compression_algorithm payload
      else some payload

  -- `sendDirectViaDataChannel`, `sendMessageViaSpecificDataChannel`, and `sendDirect` by its
  -- channel
  unfoldable pub send_on : Channel → ℕ → Bytes → Bytes → Exec (Unit {0})
  send_on channel t id payload = get_adapter >>= λ a.
      or_codec_failed (compressed a t payload) >>= λ processed. next_sequence id >>= λ sequence.
      write_message channel (record {
        message_type = t;
        stream_id = id;
        sequence = sequence;
        flags = 0;
        payload = processed;
      })

  unfoldable pub send_direct : ℕ → Bytes → Bytes → Exec (Unit {0})
  send_direct t id payload = send_on (monitor (event_name t) id) t id payload

  -- what `waitFlowSendSlot` comes to
  unfoldable pub waited : Outcome WaitError Waited → Exec (Unit {0})
  waited (ok (fc, admitted, signals)) a =
      (set_flow_controller fc
          >> (handle_signals codec none signals >> (if admitted then done else fail flow_timeout)))
        a
  waited (err e) a = (diverges, a, [])
  waited panic a = (diverges, a, [])

  unfoldable pub wait_slot : Environment → Bytes → ℕ → Exec (Unit {0})
  wait_slot env id size = get_adapter >>= λ a. elim a.flow_controller [
    | none ↦ done
    | some fc ↦ waited (wait_flow_send_slot env fc id (pos size))
  ]

  -- the loop of `sendStreaming` and `sendStreamingViaDataChannel`
  unfoldable pub send_chunks :
      (ℕ → Environment) → Channel → ℕ → Bytes → List Bytes → ℕ → Exec (Unit {0})
  send_chunks env channel t id [] sequence = done
  send_chunks env channel t id (chunk ∷ chunks) sequence =
      wait_slot (env sequence) id (length chunk)
      >> (write_message channel (record {
        message_type = t;
        stream_id = id;
        sequence = sequence;
        flags = fin_flag (is_nil chunks);
        payload = chunk;
      })
          >> send_chunks env channel t id chunks ((sequence + 1) % 2 ^ 32))

  -- `sendStreaming` and `sendStreamingViaDataChannel` with a stream manager
  unfoldable pub send_streaming :
      (ℕ → Environment) → Channel → StreamManager Callback → ℕ → Bytes → Bytes → Exec (Unit {0})
  send_streaming env channel sm t id payload =
      start_window id
      >> (get_adapter >>= λ a. or_codec_failed (compressed a t payload) >>= λ processed.
          lift (split_into_chunks (suc (length processed)) sm processed a.chunk_size) >>= λ chunks.
          send_chunks env channel t id chunks 0)

  -- `sendMessage` and `sendMessageViaDataChannel`
  unfoldable pub send_message : (ℕ → Environment) → Channel → ℕ → Bytes → Bytes → Exec (Unit {0})
  send_message env channel t id payload = get_adapter >>= λ a. elim a.stream_manager [
    | none ↦ send_on channel t id payload
    | some sm ↦
        if should_use_streaming a.flags t
        then send_streaming env channel sm t id payload
        else send_on channel t id payload
  ]

  unfoldable pub send_http_request : (ℕ → Environment) → Bytes → Bytes → Exec (Unit {0})
  send_http_request env id payload =
      send_message env (monitor (event_name MessageType.http_request) id) MessageType.http_request
        id payload

  unfoldable pub send_http_response : (ℕ → Environment) → Bytes → Bytes → Exec (Unit {0})
  send_http_response env id payload =
      send_message env (monitor (event_name MessageType.http_response) id) MessageType.http_response
        id payload

  unfoldable pub send_tcp_data : (ℕ → Environment) → Bytes → Bytes → Exec (Unit {0})
  send_tcp_data env id payload = get_adapter >>= λ a. elim (Dict.get id a.data_channels) [
    | some conn ↦ send_on (stream_data conn) MessageType.tcp_data id payload
    | none ↦
        if a.data_conn
        then send_message env shared_data MessageType.tcp_data id payload
        else if has_bit Capability.tcp_over_ws a.flags
        then fail data_channel_not_ready
        else send_message env (monitor (event_name MessageType.tcp_data) id) MessageType.tcp_data id
            payload
  ]

  -- `sendSemanticHTTPMonitor`, which the four methods for heads and bodies call with their type
  unfoldable pub send_semantic : ℕ → Bytes → Bytes → Bool → Exec (Unit {0})
  send_semantic t id payload fin = get_adapter >>= λ a.
      or_codec_failed (
        if is_head t && has_bit Capability.compression a.flags
        then compress_data codec a.compression_algorithm payload
        else some payload)
      >>= λ processed. next_sequence id >>= λ sequence.
          write_message (monitor (semantic_event_name t) id) (record {
            message_type = t;
            stream_id = id;
            sequence = sequence;
            flags = fin_flag fin;
            payload = processed;
          })
