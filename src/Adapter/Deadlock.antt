-- ===== src/Adapter/Deadlock.antt =====
-- A streamed message that is whole is delivered under the lock of its stream, and giving its bytes
-- back to the flow controller asks for that lock again.
use inlets.Common.{
  ◌⊎◌, ℕ, suc, ◌≡◌, refl, List, [], ◌∷◌, Bool, true, false, none, some, Bytes, bytes_key, ℕ_key,
  ℕ_discrete, length, ok, arith, inl, inr,
}
use inlets.Common.Int.{pos}
use inlets.Common.Dict
use inlets.Common.Dict.{Dict, get-put}
use inlets.Stream
use inlets.Stream.{Stream, Delivery, active_stream}
use inlets.Manager.{StreamManager, get_stream, ensure_stream, add_chunk}
use inlets.Manager.Holding.{ensure_stream-Holds, add_chunk-Holds}
use inlets.Flow.{FlowController, put_window, Signal, receive, release_receive_window, fresh_window}
use inlets.Wire.{BinaryMessage}
use inlets.Protocol.{Codec, has_bit}
use inlets.Protocol.MessageType
use inlets.Protocol.Capability
use inlets.Flow.Restore.{receive_fresh, release_full}
use inlets.Adapter.{
  should_use_streaming, Adapter, Callback, http_callback, Event, handled, returns, deadlocks,
}
use inlets.Adapter.Receive.{
  message_handler, choose_callback, is_semantic, decompressed, on_complete, handle_backpressure,
  handle_signals, release, take_from_window, open_stream, add_to_stream, route, handle_parsed,
  is_held,
}

abbrev equipped : Adapter → StreamManager Callback → FlowController → Adapter
equipped a sm fc = record a { stream_manager = some sm; flow_controller = some fc }

held_self : (id : Bytes) → is_held (some id) id ≡ true
held_self id = ground arith

module _ (codec : Codec) (a : Adapter) (sm : StreamManager Callback) (fc : FlowController)
    (id : Bytes) where
  -- a signal about the stream whose lock is held
  held_backpressure :
      (s : Stream Callback) (pause : Bool)
      → get_stream sm id ≡ some s
      → handle_backpressure codec
          (some id)
          (record { stream_id = id; pause = pause })
          (equipped a sm fc)
        ≡ (deadlocks, equipped a sm fc, [])
  unfolding handle_backpressure
  held_backpressure s pause h = ground (arith, held_self id)

  -- a release that reports the stream's own lock
  held_signals :
      (s : Stream Callback) (gs : List Signal)
      → get_stream sm id ≡ some s
      → handle_signals codec
          (some id)
          (record { stream_id = id; pause = false } ∷ gs)
          (equipped a sm fc)
        ≡ (deadlocks, equipped a sm fc, [])
  unfolding handle_signals
  held_signals s gs h = rw (held_backpressure s false h)

module _ (codec : Codec) (a : Adapter) (sm : StreamManager Callback) (id : Bytes)
    (s : Stream Callback) (there : get_stream sm id ≡ some s) where
  -- the release of the bytes of a stream whose lock is held
  held_release :
      (fc fc' : FlowController) (gs : List Signal) (size : ℕ)
      → release_receive_window fc id (pos size)
        ≡ (fc', record { stream_id = id; pause = false } ∷ gs)
      → release codec (some id) id size (equipped a sm fc) ≡ (deadlocks, equipped a sm fc', [])
  unfolding release
  held_release fc fc' gs size r = rw (r, held_signals codec a sm fc' id s gs there)

  decompressed-equipped :
      (fc : FlowController) (t : ℕ) (message : Bytes)
      → decompressed codec (equipped a sm fc) t message ≡ decompressed codec a t message
  unfolding decompressed
  decompressed-equipped fc t message = refl

  held_on_complete :
      (fc fc' : FlowController) (gs : List Signal) (t h : ℕ) (message payload : Bytes)
      → decompressed codec a t message ≡ some payload
      → release_receive_window fc id (pos (length message))
        ≡ (fc', record { stream_id = id; pause = false } ∷ gs)
      → on_complete codec
          (release codec (some id) id)
          id
          (record { callback = http_callback t h; message = message })
          (equipped a sm fc)
        ≡ (deadlocks, equipped a sm fc', handled h id payload ∷ [])
  unfolding on_complete
  held_on_complete fc fc' gs t h message payload d r =
      ground (arith, decompressed-equipped fc t message, held_release fc fc' gs (length message) r)

module _ (codec : Codec) (a : Adapter) (sm sm' : StreamManager Callback) (fc fc' : FlowController)
    (now : ℕ) (msg : BinaryMessage) where
  -- The chunk that makes a message whole.
  whole_chunk_deadlocks :
      (is_last : Bool) (s : Stream Callback) (gs : List Signal) (t h : ℕ) (message payload : Bytes)
      → add_chunk sm msg.stream_id msg.sequence msg.payload is_last now
        ≡ ok (sm', some (record { callback = http_callback t h; message = message }))
      → get_stream sm' msg.stream_id ≡ some s
      → decompressed codec a t message ≡ some payload
      → release_receive_window fc msg.stream_id (pos (length message))
        ≡ (fc', record { stream_id = msg.stream_id; pause = false } ∷ gs)
      → add_to_stream codec now msg is_last (equipped a sm fc)
        ≡ (deadlocks, equipped a sm' fc', handled h msg.stream_id payload ∷ [])
  unfolding add_to_stream
  whole_chunk_deadlocks is_last s gs t h message payload c there d r =
      rw (c, held_on_complete codec a sm' msg.stream_id s there fc fc' gs t h message payload d r)

-- a signal about a stream that is not there
module _ (codec : Codec) (a : Adapter) (sm : StreamManager Callback) (id : Bytes)
    (absent : get_stream sm id ≡ none) where
  no_stream_backpressure :
      (fc : FlowController) (pause : Bool)
      → handle_backpressure codec none (record { stream_id = id; pause = pause }) (equipped a sm fc)
        ≡ (returns tt, equipped a sm fc, [])
  unfolding handle_backpressure
  no_stream_backpressure fc pause = ground arith

  no_stream_signals :
      (fc : FlowController) (gs : List Signal)
      → (gs ≡ []) ⊎ (gs ≡ record { stream_id = id; pause = true } ∷ [])
      → handle_signals codec none gs (equipped a sm fc) ≡ (returns tt, equipped a sm fc, [])
  unfolding handle_signals
  no_stream_signals fc gs (inl e) = rw e
  no_stream_signals fc gs (inr e) = rw (e, no_stream_backpressure fc true)

  take_first :
      (fc : FlowController) (n : ℕ)
      → ((receive fc id (pos n)).2 ≡ [])
        ⊎ ((receive fc id (pos n)).2 ≡ record { stream_id = id; pause = true } ∷ [])
      → take_from_window codec id n (equipped a sm fc)
        ≡ (returns tt, equipped a sm (receive fc id (pos n)).0, [])
  unfolding take_from_window
  take_first fc n g = rw (no_stream_signals (receive fc id (pos n)).0 (receive fc id (pos n)).2 g)

only_chunk :
    (id payload : Bytes) (callback : Callback) (now : ℕ)
    → (s : Stream Callback) × (Stream.add_chunk
          (active_stream id now (some callback) none)
          0
          payload
          true
          now
        ≡ ok (s, some (record { callback = callback; message = payload })))
unfolding Stream.add_chunk Stream.store_chunk Stream.try_reassemble Stream.fuel_for
    Stream.merge_chunk Stream.complete Stream.deliver Stream.is_closed active_stream
    Stream.new_stream Dict.get Dict.put Dict.remove ℕ_discrete
only_chunk id payload callback now = (_, refl)

-- the only chunk of a new message
whole_message :
    (sm : StreamManager Callback) (m : Dict Bytes (Stream Callback)) (id payload : Bytes)
    (callback : Callback) (now : ℕ)
    → sm.streams ≡ some m
    → get_stream sm id ≡ none
    → (sm₁ sm₂ : StreamManager Callback) × (s : Stream Callback) × (ensure_stream sm id now
          (some callback)
          none
        ≡ ok sm₁)
      × (add_chunk sm₁ id 0 payload true now
          ≡ ok (sm₂, some (record { callback = callback; message = payload })))
      × (get_stream sm₂ id ≡ some s)
whole_message sm m id payload callback now o absent =
    let (sm₁, e₁, h₁) = ensure_stream-Holds sm m id now (some callback) none o absent in
    let (s, e) = only_chunk id payload callback now in
    let (sm₂, e₂, h₂) = add_chunk-Holds sm₁ id _ s 0 payload true now _ h₁ (omega arith) e in
    (sm₁, sm₂, s, e₁, e₂, h₂.there)

-- a new message of type `HTTPRequest` in one chunk, the last
abbrev pub only_frame : Bytes → Bytes → BinaryMessage
only_frame id payload = record {
  message_type = MessageType.http_request;
  stream_id = id;
  sequence = 0;
  flags = 1;
  payload = payload;
}

module _ (codec : Codec) (refuses : Event → Bool) (a : Adapter) (sm : StreamManager Callback)
    (m : Dict Bytes (Stream Callback)) (fc : FlowController) (id payload message : Bytes)
    (h now size : ℕ) where
  choose_first :
      (fc₁ : FlowController)
      → a.is_client ≡ true
      → a.http_request_handler ≡ some h
      → choose_callback (equipped a sm fc₁) MessageType.http_request (equipped a sm fc₁)
        ≡ (returns (http_callback MessageType.http_request h), equipped a sm fc₁, [])
  unfolding choose_callback message_handler
  choose_first fc₁ c r = ground arith

  open_first :
      (fc₁ : FlowController) (sm₁ : StreamManager Callback)
      → a.is_client ≡ true
      → a.http_request_handler ≡ some h
      → get_stream sm id ≡ none
      → ensure_stream sm id now (some (http_callback MessageType.http_request h)) none ≡ ok sm₁
      → open_stream codec now sm id MessageType.http_request (equipped a sm fc₁)
        ≡ (returns tt, equipped a sm₁ fc₁, [])
  unfolding open_stream
  open_first fc₁ sm₁ c r g e = ground (arith, choose_first fc₁ c r)

  -- A client to which HTTP streaming, stream reassembly and flow control were negotiated, with a
  -- window that is not empty, blocks for good on the first request that arrives in a single chunk:
  -- the handler is called on the decompressed data, and then the goroutine waits for the lock of
  -- the stream, which it holds.
  pub first_request_deadlocks :
      a.is_client ≡ true
      → a.http_request_handler ≡ some h
      → has_bit Capability.http_streaming a.flags ≡ true
      → sm.streams ≡ some m
      → get_stream sm id ≡ none
      → fc.on_backpressure ≡ true
      → Dict.get id fc.windows ≡ none
      → fc.default_max_window_size ≡ pos (suc size)
      → decompressed codec a MessageType.http_request payload ≡ some message
      → (a' : Adapter) × (handle_parsed codec refuses now
            (only_frame id payload)
            (record a { stream_manager = some sm; flow_controller = some fc })
          ≡ (deadlocks, a', handled h id message ∷ []))
  unfolding handle_parsed route is_semantic should_use_streaming
  first_request_deadlocks c r streaming o g cb fresh default d =
      let (sm₁, sm₂, s, e₁, e₂, g₂) =
        whole_message sm m id payload (http_callback MessageType.http_request h) now o g in
      let taken = receive_fresh fc id size (length payload) cb fresh default in
      let fc₁ = (receive fc id (pos (length payload))).0 in
      let full =
        release_full fc₁ id size (length payload) taken.callback taken.window taken.found
          taken.full_again in
      (
        equipped a sm₂ (put_window fc₁ id (fresh_window (pos (suc size)))),
        rw (
          take_first codec a sm id g fc (length payload) taken.signals,
          streaming,
          open_first fc₁ sm₁ c r g e₁,
          whole_chunk_deadlocks codec a sm₁ sm₂ fc₁
              (put_window fc₁ id (fresh_window (pos (suc size)))) now (only_frame id payload) true s
              [] MessageType.http_request h payload message e₂ g₂ d full,
        ),
      )
