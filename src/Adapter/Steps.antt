-- ===== src/Adapter/Steps.antt =====
-- The parts of a streamed request, one after the other, as the adapter without flow control takes
-- them.
use inlets.Common.{
  ℕ, ◌<◌, ◌^◌, ◌≡◌, refl, List, [], ◌∷◌, ◌++◌, Bool, true, Option, none, some, Bytes, length, ok,
  arith, All, bind_ok,
}
use inlets.Stream
use inlets.Stream.{Stream, Delivery, active_stream}
use inlets.Stream.Reassembly.{Part}
use inlets.Stream.Arrival.{add_chunks}
use inlets.Manager.{StreamManager, get_stream}
use inlets.Manager.Holding.{Holds, ensure_stream-Holds}
use inlets.Protocol.{Codec, has_bit}
use inlets.Protocol.MessageType
use inlets.Protocol.Capability
use inlets.Adapter.{Adapter, Callback, Event, returns, should_use_streaming}
use inlets.Adapter.Receive.{
  take_from_window, open_stream, route, handle_parsed, choose_callback, message_handler,
  is_semantic,
}
use inlets.Adapter.Part.{
  part_frame, handle_parts, without_flow, callback, announced, all_announced, IsOurs, CallIsOurs,
  Does, add_to_stream-Does, fin_bit,
}

module _ (codec : Codec) (refuses : Event → Bool) (a : Adapter) (id : Bytes) (h : ℕ)
    (client : a.is_client ≡ true) (registered : a.http_request_handler ≡ some h)
    (streaming : has_bit Capability.http_streaming a.flags ≡ true) where
  no_window :
      (sm : StreamManager Callback) (n : ℕ)
      → take_from_window codec id n (without_flow a sm) ≡ (returns tt, without_flow a sm, [])
  unfolding take_from_window
  no_window sm n = refl

  choose_request :
      (sm : StreamManager Callback)
      → choose_callback (without_flow a sm) MessageType.http_request (without_flow a sm)
        ≡ (returns (callback codec a id h), without_flow a sm, [])
  unfolding choose_callback message_handler
  choose_request sm = ground arith

  -- a part of a stream that is there
  handle-Does :
      (sm : StreamManager Callback) (s s' : Stream Callback) (p : Part)
      (call : Option (Delivery Callback))
      → p.sequence < 2 ^ 32
      → Holds sm id s
      → Stream.add_chunk s p.sequence p.payload p.is_last p.arrival ≡ ok (s', call)
      → CallIsOurs codec a id h call
      → Does codec a id h
          (handle_parsed codec refuses p.arrival (part_frame id p))
          sm
          s'
          (announced codec a id h call)
  unfolding handle_parsed route is_semantic should_use_streaming
  handle-Does sm s s' p call small holds e ours =
      let added = add_to_stream-Does codec a id h sm s s' p call small holds e ours in
      let there : open_stream codec p.arrival sm id MessageType.http_request (without_flow a sm)
          ≡ (returns tt, without_flow a sm, []) =
        unfold open_stream in ground (arith, holds.there) in
      record {
        manager = added.manager;
        result = rw (
          no_window sm (length p.payload),
          streaming,
          there,
          fin_bit codec a id h p.is_last,
          added.result,
        );
        holds = added.holds;
      }

  -- the first part
  first-Does :
      (sm : StreamManager Callback) (m : _) (s' : Stream Callback) (p : Part)
      (call : Option (Delivery Callback))
      → p.sequence < 2 ^ 32
      → sm.streams ≡ some m
      → get_stream sm id ≡ none
      → Stream.add_chunk
          (active_stream id p.arrival (some (callback codec a id h)) none)
          p.sequence
          p.payload
          p.is_last
          p.arrival
        ≡ ok (s', call)
      → CallIsOurs codec a id h call
      → Does codec a id h
          (handle_parsed codec refuses p.arrival (part_frame id p))
          sm
          s'
          (announced codec a id h call)
  unfolding handle_parsed route is_semantic should_use_streaming
  first-Does sm m s' p call small o absent e ours =
      let (sm₁, q, holds) =
        ensure_stream-Holds sm m id p.arrival (some (callback codec a id h)) none o absent in
      let added = add_to_stream-Does codec a id h sm₁ _ s' p call small holds e ours in
      let opened : open_stream codec p.arrival sm id MessageType.http_request (without_flow a sm)
          ≡ (returns tt, without_flow a sm₁, []) =
        unfold open_stream in ground (arith, choose_request sm) in
      record {
        manager = added.manager;
        result = rw (
          no_window sm (length p.payload),
          streaming,
          opened,
          fin_bit codec a id h p.is_last,
          added.result,
        );
        holds = added.holds;
      }

  abbrev IsSmall : Part → Type 0
  IsSmall p = p.sequence < 2 ^ 32

  -- the calls of one part and of the others after it
  with_call : Option (Delivery Callback) → List (Delivery Callback) → List (Delivery Callback)
  with_call call calls = elim call [ none ↦ calls | some d ↦ d ∷ calls ]

  with_call-announced :
      (call : Option (Delivery Callback)) (calls : List (Delivery Callback))
      → announced codec a id h call ++ all_announced codec a id h calls
        ≡ all_announced codec a id h (with_call call calls)
  unfolding with_call announced all_announced
  with_call-announced none calls = refl
  with_call-announced (some d) calls = refl

  with_call-IsOurs :
      (call : Option (Delivery Callback)) (calls : List (Delivery Callback))
      → All (IsOurs codec a id h) (with_call call calls)
      → CallIsOurs codec a id h call × All (IsOurs codec a id h) calls
  unfolding with_call
  with_call-IsOurs none calls o = (tt, o)
  with_call-IsOurs (some d) calls o = o

  -- `AddChunk` for each part, taken apart
  abbrev Steps :
      Stream Callback → Part → List Part → Stream Callback → List (Delivery Callback) → Type 0
  Steps s p ps s'' ds =
      (s' : Stream Callback) × (call : Option (Delivery Callback)) × (calls : List
        (Delivery Callback))
      × (Stream.add_chunk s p.sequence p.payload p.is_last p.arrival ≡ ok (s', call))
      × (add_chunks s' ps ≡ ok (s'', calls))
      × (ds ≡ with_call call calls)

  add_chunks-Steps :
      (s : Stream Callback) (p : Part) (ps : List Part) (s'' : Stream Callback)
      (ds : List (Delivery Callback))
      → add_chunks s (p ∷ ps) ≡ ok (s'', ds)
      → Steps s p ps s'' ds
  unfolding add_chunks with_call
  add_chunks-Steps s p ps s'' ds h =
      bind_ok (Stream.add_chunk s p.sequence p.payload p.is_last p.arrival) _ h
        λ r e h₁. bind_ok (add_chunks r.0 ps) _ h₁ λ t e₁ h₂. (r.0, r.1, t.1, e, cc, cc)

  parts-Does :
      (ps : List Part) (sm : StreamManager Callback) (s s'' : Stream Callback)
      (ds : List (Delivery Callback))
      → All IsSmall ps
      → Holds sm id s
      → add_chunks s ps ≡ ok (s'', ds)
      → All (IsOurs codec a id h) ds
      → Does codec a id h (handle_parts codec refuses id ps) sm s'' (all_announced codec a id h ds)
  unfolding handle_parts all_announced
  parts-Does [] sm s s'' ds small holds e ours =
      let q : ds ≡ [] = unfold add_chunks in cc in
      let t : s'' ≡ s = unfold add_chunks in cc in
      rw (q, t) (record { manager = sm; result = refl; holds = holds })
  parts-Does (p ∷ ps) sm s s'' ds small holds e ours =
      let (s', call, calls, e₁, e₂, q) = add_chunks-Steps s p ps s'' ds e in
      let o = with_call-IsOurs call calls (rw (← q) ours) in
      let one = handle-Does sm s s' p call small.0 holds e₁ o.0 in
      let others = parts-Does ps one.manager s' s'' calls small.1 one.holds e₂ o.1 in
      rw (q, ← with_call-announced call calls)
        (record {
          manager = others.manager;
          result = rw (one.result, others.result);
          holds = others.holds;
        })

  pub All-parts-Does :
      (p : Part) (ps : List Part) (sm : StreamManager Callback) (m : _) (s'' : Stream Callback)
      (ds : List (Delivery Callback))
      → All IsSmall (p ∷ ps)
      → sm.streams ≡ some m
      → get_stream sm id ≡ none
      → add_chunks (active_stream id p.arrival (some (callback codec a id h)) none) (p ∷ ps)
        ≡ ok (s'', ds)
      → All (IsOurs codec a id h) ds
      → Does codec a id h
          (handle_parts codec refuses id (p ∷ ps))
          sm
          s''
          (all_announced codec a id h ds)
  unfolding handle_parts all_announced
  All-parts-Does p ps sm m s'' ds small o absent e ours =
      let (s', call, calls, e₁, e₂, q) = add_chunks-Steps _ p ps s'' ds e in
      let mine = with_call-IsOurs call calls (rw (← q) ours) in
      let one = first-Does sm m s' p call small.0 o absent e₁ mine.0 in
      let others = parts-Does ps one.manager s' s'' calls small.1 one.holds e₂ mine.1 in
      rw (q, ← with_call-announced call calls)
        (record {
          manager = others.manager;
          result = rw (one.result, others.result);
          holds = others.holds;
        })
