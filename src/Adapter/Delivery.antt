-- ===== src/Adapter/Delivery.antt =====
-- A request that is streamed in parts, without flow control: from the frames to the handler.
use inlets.Common.{
  ℕ, ◌<◌, ◌^◌, ◌≡◌, refl, ◌∙◌, ap, List, [], ◌∷◌, Bool, true, none, some, Bytes, length, concat,
  arith, All, get_elem?_bound,
}
use inlets.Common.Dict.{Dict}
use inlets.Stream.{Stream}
use inlets.Stream.Reassembly.{Part, IsPart}
use inlets.Stream.Arrival.{Arrived, reassembles}
use inlets.Manager.{StreamManager, get_stream}
use inlets.Protocol.{Codec, has_bit}
use inlets.Protocol.MessageType
use inlets.Protocol.Capability
use inlets.Adapter.{Adapter, Callback, http_callback, Event, handled, returns}
use inlets.Adapter.Receive.{decompressed}
use inlets.Adapter.Part.{handle_parts, without_flow, callback, announced, all_announced}
use inlets.Adapter.Steps.{All-parts-Does}

parts-IsSmall :
    {C : Type 0} (parts : List Bytes) (callback : C)
    → length parts < 2 ^ 32
    → (ps : List Part) → All (IsPart parts callback) ps
    → All (λ (p : Part). p.sequence < 2 ^ 32) ps
parts-IsSmall parts callback small [] h = tt
parts-IsSmall parts callback small (p ∷ ps) h = (
  omega (arith, get_elem?_bound parts p.sequence p.payload h.0.found),
  parts-IsSmall parts callback small ps h.1,
)

module _ (codec : Codec) (refuses : Event → Bool) (a : Adapter) (sm : StreamManager Callback)
    (m : Dict Bytes (Stream Callback)) (id : Bytes) (h : ℕ) (parts : List Bytes)
    (message : Bytes) where
  one_announced :
      decompressed codec a MessageType.http_request (concat parts) ≡ some message
      → all_announced codec a id h (
          record { callback = http_callback MessageType.http_request h; message = concat parts }
          ∷ [])
        ≡ handled h id message ∷ []
  unfolding all_announced announced
  one_announced d = ground arith

  -- A client without flow control to which HTTP streaming was negotiated calls the request handler
  -- once, on the whole decompressed message, when the parts of a request that it did not know
  -- before have arrived, in any order and with any repetitions, and all the calls of
  -- `handleBinaryMessage` return.
  pub request_handled_once :
      (ps : List Part)
      → a.is_client ≡ true
      → a.http_request_handler ≡ some h
      → has_bit Capability.http_streaming a.flags ≡ true
      → sm.streams ≡ some m
      → get_stream sm id ≡ none
      → 0 < length parts
      → length parts < 2 ^ 32
      → All (IsPart parts (http_callback MessageType.http_request h)) ps
      → ((i : ℕ) → i < length parts → Arrived i ps)
      → decompressed codec a MessageType.http_request (concat parts) ≡ some message
      → (sm' : StreamManager Callback) × (handle_parts codec refuses id ps
            (record a { stream_manager = some sm; flow_controller = none })
          ≡ (
            returns tt,
            record a { stream_manager = some sm'; flow_controller = none },
            handled h id message ∷ [],
          ))
  request_handled_once [] c r streaming o absent some_part small valid all d =
      absurd (all 0 some_part)
  request_handled_once (p ∷ ps) c r streaming o absent some_part small valid all d =
      let (s, e, _) =
        reassembles parts (http_callback MessageType.http_request h) id p.arrival none (p ∷ ps)
          small some_part valid all in
      let does =
        All-parts-Does codec refuses a id h c r streaming p ps sm m s _
          (parts-IsSmall parts _ small (p ∷ ps) valid) o absent e (refl, tt) in
      (
        does.manager,
        does.result
            ∙ ap (λ (es : List Event). (returns tt, without_flow a does.manager, es))
                (one_announced d),
      )
