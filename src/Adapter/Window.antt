-- ===== src/Adapter/Window.antt =====
-- What a request that is not streamed leaves of the receive window.
use inlets.Common.{
  ℕ, ◌≡◌, refl, Bool-cases, inl, inr, ◌⊎◌, [], ◌∷◌, Bool, true, false, none, some, Bytes, length,
  arith,
}
use inlets.Common.Int.{pos, ◌-ℤ◌, ◌≤ℤ◌}
use inlets.Flow.{FlowController, receive, window_of, put_window}
use inlets.Protocol.{Codec, has_bit}
use inlets.Protocol.MessageType
use inlets.Protocol.Capability
use inlets.Adapter.{Adapter, Event, handled, returns, should_use_streaming}
use inlets.Adapter.Receive.{
  handle_parsed, route, handle_direct, call, take_from_window, handle_signals, decompressed,
  message_handler, is_semantic,
}

-- the window of a stream with `n` bytes less
abbrev pub taken : FlowController → Bytes → ℕ → FlowController
taken fc id n =
    let w = window_of fc id in
    put_window fc id (record w { receive_window = w.receive_window -ℤ pos n })

receive_fits :
    (fc : FlowController) (id : Bytes) (n : ℕ)
    → pos n ≤ℤ (window_of fc id).receive_window
    → receive fc id (pos n) ≡ (taken fc id n, true, [])
unfolding receive
receive_fits fc id n fits = ground (arith, fits)

module _ (codec : Codec) (a : Adapter) where
  take_fits :
      (fc : FlowController) (id : Bytes) (n : ℕ)
      → a.flow_controller ≡ some fc
      → pos n ≤ℤ (window_of fc id).receive_window
      → take_from_window codec id n a
        ≡ (returns tt, record a { flow_controller = some (taken fc id n) }, [])
  unfolding take_from_window handle_signals
  take_fits fc id n e fits = rw (e, receive_fits fc id n fits) refl

  handler_there :
      (fc : FlowController) (h : ℕ)
      → a.is_client ≡ true
      → a.http_request_handler ≡ some h
      → message_handler (record a { flow_controller = some fc }) MessageType.http_request ≡ some h
  unfolding message_handler
  handler_there fc h client handler = ground arith

  -- A client has negotiated no HTTP streaming, or has no stream manager. A request that fits the
  -- receive window of its stream and that the handler accepts is handled once on the decompressed
  -- data, and nothing else changes but that the window is smaller by the bytes of the request.
  pub direct_request_keeps_window :
      (refuses : Event → Bool) (now : ℕ) (fc : FlowController) (id payload message : Bytes)
      (sequence flags h : ℕ)
      → (has_bit Capability.http_streaming a.flags ≡ false) ⊎ (a.stream_manager ≡ none)
      → a.flow_controller ≡ some fc
      → pos (length payload) ≤ℤ (window_of fc id).receive_window
      → a.is_client ≡ true
      → a.http_request_handler ≡ some h
      → decompressed codec a MessageType.http_request payload ≡ some message
      → refuses (handled h id message) ≡ false
      → handle_parsed codec refuses now
          (record {
            message_type = MessageType.http_request;
            stream_id = id;
            sequence = sequence;
            flags = flags;
            payload = payload;
          })
          a
        ≡ (
          returns tt,
          record a { flow_controller = some (taken fc id (length payload)) },
          handled h id message ∷ [],
        )
  unfolding handle_parsed route is_semantic should_use_streaming
  direct_request_keeps_window refuses now fc id payload message sequence flags h direct e fits
        client handler d accepts =
      let fc' = taken fc id (length payload) in
      let handles : handle_direct codec refuses
            (record {
              message_type = MessageType.http_request;
              stream_id = id;
              sequence = sequence;
              flags = flags;
              payload = payload;
            })
            (record a { flow_controller = some fc' })
          ≡ (returns tt, record a { flow_controller = some fc' }, handled h id message ∷ []) =
        unfold handle_direct call in ground (arith, handler_there fc' h client handler, same fc') in
      elim direct [
        | inl off ↦ rw (take_fits fc id (length payload) e fits, off, handles) refl
        | inr m ↦ elim (Bool-cases (has_bit Capability.http_streaming a.flags)) [
          | inl b ↦ rw (take_fits fc id (length payload) e fits, b, m) (rw m at handles)
          | inr b ↦ rw (take_fits fc id (length payload) e fits, b, handles) refl
        ]
      ]
    where
      same :
          (f : FlowController)
          → decompressed codec
              (record a { flow_controller = some f })
              MessageType.http_request
              payload
            ≡ some message
      same f = unfold decompressed in d
