-- ===== src/Session/Request.antt =====
-- A streamed request from end to end.
use inlets.Common.{
  ℕ, suc, ◌^◌, ◌≤◌, ◌<◌, ◌≡◌, sym, subst, ◌∙◌, ap, List, [], ◌∷◌, Bool, true, none, some, Bytes,
  length, arith, All, concat,
}
use inlets.Common.Int.{pos}
use inlets.Common.Dict.{Dict}
use inlets.Stream.{Stream}
use inlets.Manager.{StreamManager, get_stream, effective_size}
use inlets.Manager.Chunks.{IsSplit}
use inlets.Flow.Wait.{Environment}
use inlets.Protocol.{Codec, has_bit}
use inlets.Protocol.MessageType
use inlets.Protocol.Capability
use inlets.Adapter.{Adapter, Callback, http_callback, Event, handled, Channel, Reply, returns}
use inlets.Adapter.Receive.{decompressed}
use inlets.Adapter.Send.{send_http_request, compressed}
use inlets.Adapter.Sending.{numbered, all_wrote}
use inlets.Session.{handle_frames, delivered, Comes}
use inlets.Common.{length-append}
use inlets.Transfer.{count_of_chunks, some_chunk}
use inlets.Adapter.Sending.{send_streaming-numbered}
use inlets.Adapter.Delivery.{request_handled_once}
use inlets.Adapter.Send.{send_message, event_name}
use inlets.Adapter.{should_use_streaming, monitor}
use inlets.Session.Arrivals.{parts-IsEncodable, frames-parts, Arrivals-Arrivals, length-numbered}

All-short :
    (n : ℕ) (chunks : List Bytes)
    → length (concat chunks) < n
    → All (λ (c : Bytes). length c < n) chunks
All-short n [] h = tt
All-short n (c ∷ cs) h = (
  omega (arith, length-append c (concat cs)),
  All-short n cs (omega (arith, length-append c (concat cs))),
)

module _ (codec : Codec) (refuses : Event → Bool) (env : ℕ → Environment) (s a : Adapter)
    (sender sm : StreamManager Callback) (m : Dict Bytes (Stream Callback))
    (id payload processed : Bytes) (h size : ℕ) where
  -- the sender's run
  abbrev sent : Reply (Unit {0}) × Adapter × List Event
  sent =
      send_http_request codec env id payload
        (record s { stream_manager = some sender; flow_controller = none; writes = [] })

  sent-numbered :
      has_bit Capability.http_streaming s.flags ≡ true
      → length id ≤ 255
      → compressed codec s MessageType.http_request payload ≡ some processed
      → effective_size sender s.chunk_size ≡ pos (suc size)
      → (chunks : List Bytes) × IsSplit processed (suc size) chunks
        × (sent ≡ (
          returns tt,
          record s { stream_manager = some sender; flow_controller = none; writes = [] },
          all_wrote
              (monitor (event_name MessageType.http_request) id)
              (numbered MessageType.http_request id chunks 0),
        ))
  unfolding send_http_request send_message should_use_streaming
  sent-numbered streaming short c e =
      let (chunks, split, r) =
        send_streaming-numbered codec env (monitor (event_name MessageType.http_request) id)
          MessageType.http_request id short (record s { stream_manager = some sender }) sender
          payload processed size (unfold compressed in c) e in
      (chunks, split, rw streaming r)

  abbrev channel : Channel
  channel = monitor (event_name MessageType.http_request) id

  -- The client has handled the request once.
  Handled : List (ℕ × ℕ) → List Event → Type 0
  Handled arrivals events =
      (sm' : StreamManager Callback) × (handle_frames codec refuses (delivered events arrivals)
          (record a { stream_manager = some sm; flow_controller = none })
        ≡ (
          returns tt,
          record a { stream_manager = some sm'; flow_controller = none },
          handled h id payload ∷ [],
        ))

  frames-Handled :
      (chunks : List Bytes) (arrivals : List (ℕ × ℕ))
      → IsSplit processed (suc size) chunks
      → length id ≤ 255
      → 0 < length processed
      → length processed < 2 ^ 32
      → a.is_client ≡ true
      → a.http_request_handler ≡ some h
      → has_bit Capability.http_streaming a.flags ≡ true
      → sm.streams ≡ some m
      → get_stream sm id ≡ none
      → decompressed codec a MessageType.http_request processed ≡ some payload
      → All (λ (x : ℕ × ℕ). x.0 < length chunks) arrivals
      → ((i : ℕ) → i < length chunks → Comes i arrivals)
      → Handled arrivals (all_wrote channel (numbered MessageType.http_request id chunks 0))
  unfolding Handled
  frames-Handled chunks arrivals split short some_byte small client handler streaming o absent d
        inside each =
      let few : length chunks < 2 ^ 32 = omega (
        arith,
        count_of_chunks (suc size) chunks split.sized,
        ap (λ (x : Bytes). length x) split.whole,
      ) in
      let callback : Callback = http_callback MessageType.http_request h in
      let arrived = Arrivals-Arrivals id channel chunks callback few arrivals inside in
      let encodable =
        parts-IsEncodable id chunks callback arrived.parts short few
          (All-short (2 ^ 32) chunks (rw split.whole small)) arrived.valid in
      let (sm', q) =
        request_handled_once codec refuses a sm m id h chunks payload arrived.parts client handler
          streaming o absent (some_chunk chunks (rw split.whole some_byte)) few arrived.valid
          (λ i lt. arrived.complete i (each i lt)) (rw split.whole d) in
      (sm', rw (arrived.same, frames-parts codec refuses id arrived.parts encodable) q)

  -- Without flow control and with writes that succeed, a request of at least one byte and less
  -- than 2 ^ 32 after its compression, sent by a server that streams, reaches the handler of a
  -- client that did not know the request: once, and as it was given to the server. Each written
  -- frame arrives, in any order and any number of times, and the client restores what the server
  -- compressed.
  pub request_delivered :
      (arrivals : List (ℕ × ℕ))
      → has_bit Capability.http_streaming s.flags ≡ true
      → length id ≤ 255
      → compressed codec s MessageType.http_request payload ≡ some processed
      → effective_size sender s.chunk_size ≡ pos (suc size)
      → 0 < length processed
      → length processed < 2 ^ 32
      → a.is_client ≡ true
      → a.http_request_handler ≡ some h
      → has_bit Capability.http_streaming a.flags ≡ true
      → sm.streams ≡ some m
      → get_stream sm id ≡ none
      → decompressed codec a MessageType.http_request processed ≡ some payload
      → All (λ (x : ℕ × ℕ). x.0 < length sent.2) arrivals
      → ((i : ℕ) → i < length sent.2 → Comes i arrivals)
      → (sent.0 ≡ returns tt)
        × (sm' : StreamManager Callback) × (handle_frames codec refuses
              (delivered sent.2 arrivals)
              (record a { stream_manager = some sm; flow_controller = none })
            ≡ (
              returns tt,
              record a { stream_manager = some sm'; flow_controller = none },
              handled h id payload ∷ [],
            ))
  unfolding Handled
  request_delivered arrivals streams short c e some_byte small client handler streaming o absent d
        inside each =
      let (chunks, split, r) = sent-numbered streams short c e in
      let events : sent.2 ≡ all_wrote channel (numbered MessageType.http_request id chunks 0) =
        ap (λ (x : Reply (Unit {0}) × Adapter × List Event). x.2) r in
      let count : length sent.2 ≡ length chunks =
        ap (λ (x : List Event). length x) events
        ∙ length-numbered channel MessageType.http_request id chunks 0 in
      let (sm', handled_once) : Handled arrivals sent.2 =
        subst (λ (x : List Event). Handled arrivals x) (sym events)
          (frames-Handled chunks arrivals split short some_byte small client handler streaming o
            absent d (subst (λ (n : ℕ). All (λ (x : ℕ × ℕ). x.0 < n) arrivals) count inside)
            (λ i lt. each i (omega (arith, count, lt)))) in
      (ap (λ (x : Reply (Unit {0}) × Adapter × List Event). x.0) r, sm', handled_once)
