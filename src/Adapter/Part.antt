-- ===== src/Adapter/Part.antt =====
-- One part of a streamed request, as the adapter without flow control takes it.
use inlets.Common.{
  ℕ, ◌<◌, ◌^◌, ◌≡◌, refl, List, [], ◌∷◌, ◌++◌, Bool, true, false, Option, none, some, Bytes, length,
  ok, arith, if◌then◌else◌,
}
use inlets.Stream
use inlets.Stream.{Stream, Delivery, active_stream}
use inlets.Stream.Reassembly.{Part}
use inlets.Manager.{StreamManager}
use inlets.Manager.Holding.{Holds, add_chunk-Holds}
use inlets.Wire.{BinaryMessage}
use inlets.Protocol.{Codec, has_bit}
use inlets.Protocol.MessageType
use inlets.Adapter.{Adapter, Callback, http_callback, Event, handled, Exec, returns, done, ◌>>◌}
use inlets.Adapter.Receive.{decompressed, on_complete, release, add_to_stream, handle_parsed}

-- the frame of a part of the request `id`
abbrev pub part_frame : Bytes → Part → BinaryMessage
part_frame id p = record {
  message_type = MessageType.http_request;
  stream_id = id;
  sequence = p.sequence;
  flags = if p.is_last then 1 else 0;
  payload = p.payload;
}

-- `handleBinaryMessage` for the frame of each part, at the time of its arrival
unfoldable pub handle_parts : Codec → (Event → Bool) → Bytes → List Part → Exec (Unit {0})
handle_parts codec refuses id [] = done
handle_parts codec refuses id (p ∷ ps) =
    handle_parsed codec refuses p.arrival (part_frame id p) >> handle_parts codec refuses id ps

abbrev pub without_flow : Adapter → StreamManager Callback → Adapter
without_flow a sm = record a { stream_manager = some sm; flow_controller = none }

module _ (codec : Codec) (a : Adapter) (id : Bytes) (h : ℕ) where
  abbrev pub callback : Callback
  callback = http_callback MessageType.http_request h

  -- the calls of the handler for the message that `OnComplete` is called on
  unfoldable pub announced : Option (Delivery Callback) → List Event
  announced none = []
  announced (some d) = elim (decompressed codec a MessageType.http_request d.message) [
    | none ↦ []
    | some message ↦ handled h id message ∷ []
  ]

  unfoldable pub all_announced : List (Delivery Callback) → List Event
  all_announced [] = []
  all_announced (d ∷ ds) = announced (some d) ++ all_announced ds

  no_release :
      (sm : StreamManager Callback) (held : Option Bytes) (size : ℕ)
      → release codec held id size (without_flow a sm) ≡ (returns tt, without_flow a sm, [])
  unfolding release
  no_release sm held size = refl

  decompressed-without_flow :
      (sm : StreamManager Callback) (message : Bytes)
      → decompressed codec (without_flow a sm) MessageType.http_request message
        ≡ decompressed codec a MessageType.http_request message
  unfolding decompressed
  decompressed-without_flow sm message = refl

  abbrev pub IsOurs : Delivery Callback → Type 0
  IsOurs d = d.callback ≡ callback

  on_complete-announced :
      (sm : StreamManager Callback) (d : Delivery Callback)
      → IsOurs d
      → on_complete codec (release codec (some id) id) id d (without_flow a sm)
        ≡ (returns tt, without_flow a sm, announced (some d))
  unfolding on_complete announced
  on_complete-announced sm d ours = ground (
    arith,
    ours,
    decompressed-without_flow sm d.message,
    no_release sm (some id) (length d.message),
  )

  abbrev pub CallIsOurs : Option (Delivery Callback) → Type 0
  CallIsOurs none = Unit {0}
  CallIsOurs (some d) = IsOurs d

  -- what a part does to an adapter: the stream `s'` afterwards, and the call
  pub record Does (m : Exec (Unit {0})) (sm : StreamManager Callback) (s' : Stream Callback)
      (events : List Event) : Type 0 where
    pub manager : StreamManager Callback
    pub result : m (without_flow a sm) ≡ (returns tt, without_flow a manager, events)
    pub holds : Holds manager id s'

  pub add_to_stream-Does :
      (sm : StreamManager Callback) (s s' : Stream Callback) (p : Part)
      (call : Option (Delivery Callback))
      → p.sequence < 2 ^ 32
      → Holds sm id s
      → Stream.add_chunk s p.sequence p.payload p.is_last p.arrival ≡ ok (s', call)
      → CallIsOurs call
      → Does (add_to_stream codec p.arrival (part_frame id p) p.is_last) sm s' (announced call)
  unfolding add_to_stream announced
  add_to_stream-Does sm s s' p none small holds e ours =
      let (sm', q, holds') =
        add_chunk-Holds sm id s s' p.sequence p.payload p.is_last p.arrival none holds small e in
      record { manager = sm'; result = rw q; holds = holds' }
  add_to_stream-Does sm s s' p (some d) small holds e ours =
      let (sm', q, holds') =
        add_chunk-Holds sm id s s' p.sequence p.payload p.is_last p.arrival (some d) holds small
          e in
      record { manager = sm'; result = rw (q, on_complete-announced sm' d ours); holds = holds' }

  pub fin_bit : (b : Bool) → has_bit 0 (if b then 1 else 0) ≡ b
  fin_bit true = refl
  fin_bit false = refl
