-- ===== src/Stream/Arrival.antt =====
-- A message is delivered once, when the last of its parts has arrived, and not before.
use inlets.Common.{
  ℕ, ◌+◌, ◌^◌, ◌<◌, ◌≡◌, refl, ◌↔◌, ◌⊎◌, inl, inr, List, [], ◌∷◌, true, false, Option, none, some,
  ℕ_key, Bytes, length, arith, Outcome, ok, ◌>>=◌, concat, All, if◌then◌else◌,
}
use inlets.Common.Dict
use inlets.Common.Dict.{get-put, get-empty}
use inlets.Common.Int.{pos}
use inlets.Stream.{
  Stream, StreamChunk, completed, Fault, Result, Delivery, add_chunk, store_chunk, is_closed,
  fuel_for, active_stream, new_stream, try_reassemble,
}
use inlets.Stream.Reassembly.{
  Part, IsPart, Partial, Seen, delivery, Progress, waits, done, loop-Progress,
}

-- A part with sequence number `i` is among `ps`.
abbrev pub Arrived : ℕ → List Part → Type 0
Arrived i [] = ⊥
Arrived i (p ∷ ps) = (p.sequence ≡ i) ⊎ Arrived i ps

module _ {C : Type 0} where
  -- `AddChunk` for each arrival in turn, with the calls of `OnComplete` that were made
  unfoldable pub add_chunks : Stream C → List Part → Outcome Fault (Stream C × List (Delivery C))
  add_chunks s [] = ok (s, [])
  add_chunks s (p ∷ ps) = do
    (s', call) ← add_chunk s p.sequence p.payload p.is_last p.arrival
    (s'', calls) ← add_chunks s' ps
    ok (s'', elim call [ none ↦ calls | some d ↦ d ∷ calls ])

  add_chunks-closed :
      (s : Stream C) (ps : List Part) → is_closed s.state ≡ true → add_chunks s ps ≡ ok (s, [])
  unfolding add_chunks add_chunk
  add_chunks-closed s [] h = refl
  add_chunks-closed s (p ∷ ps) h = rw h (rw (add_chunks-closed s ps h))

module _ {C : Type 0} (parts : List Bytes) (callback : C) (small : length parts < 2 ^ 32) where
  -- Between two calls: no part is waiting that could be merged, and what was seen has arrived.
  record Waiting (ps : List Part) (s : Stream C) : Type 0 where
    partial : Partial parts callback s
    gap : Dict.get s.expected_sequence partial.chunks ≡ none
    arrived : (i : ℕ) → Seen parts callback s partial i ↔ Arrived i ps

  -- the stream with one more part held
  stored : (s : Stream C) → Partial parts callback s → Part → Stream C
  stored s v p = record s {
    chunks = some (
        Dict.put p.sequence
          (record { sequence = p.sequence; payload = p.payload; is_last = p.is_last }) v.chunks);
    total_chunks = if p.is_last then pos (p.sequence + 1) else s.total_chunks;
    last_activity = p.arrival;
  }

  stored-Partial :
      (s : Stream C) (v : Partial parts callback s) (p : Part)
      → IsPart parts callback p
      → Partial parts callback (stored s v p)
  unfolding stored
  stored-Partial s v p h = record {
    chunks =
        Dict.put p.sequence
          (record { sequence = p.sequence; payload = p.payload; is_last = p.is_last }) v.chunks;
    open_map = refl;
    not_closed = v.not_closed;
    held = λ i c q. ground (
      arith,
      get-put p.sequence i
          (let x : StreamChunk = record {
            sequence = p.sequence;
            payload = p.payload;
            is_last = p.is_last;
          } in
            x)
          v.chunks,
      v.held i c,
      h.found,
      h.last,
    );
    total = ground (arith, v.total, h.last);
    data_so_far = v.data_so_far;
    unfinished = v.unfinished;
    notified = v.notified;
  }

  stored-Seen :
      (s : Stream C) (v : Partial parts callback s) (p : Part) (h : IsPart parts callback p) (i : ℕ)
      → Seen parts callback (stored s v p) (stored-Partial s v p h) i
        ↔ ((p.sequence ≡ i) ⊎ Seen parts callback s v i)
  unfolding stored-Partial stored
  stored-Seen s v p h i = ground (
    arith,
    get-put p.sequence i
        (let x : StreamChunk = record {
          sequence = p.sequence;
          payload = p.payload;
          is_last = p.is_last;
        } in
          x)
        v.chunks,
  )

  store_chunk-stored :
      (s : Stream C) (v : Partial parts callback s) (p : Part)
      → store_chunk s p.sequence p.payload p.is_last p.arrival ≡ ok (stored s v p)
  unfolding store_chunk stored
  store_chunk-stored s v p = ground (arith, v.open_map)

  -- `AddChunk` on an open stream is the loop on the stream with the part stored.
  add_chunk-stored :
      (s : Stream C) (v : Partial parts callback s) (p : Part)
      → add_chunk s p.sequence p.payload p.is_last p.arrival
        ≡ try_reassemble (fuel_for (stored s v p)) (stored s v p)
  unfolding add_chunk
  add_chunk-stored s v p = rw (v.not_closed, store_chunk-stored s v p)

  -- The whole of what one arrival does.
  data Arrives (ps : List Part) (r : Outcome Fault (Result C)) : Type 0 where
    keeps : (s' : Stream C) → r ≡ ok (s', none) → Waiting ps s' → Arrives ps r
    ends :
        (s' : Stream C)
        → r ≡ ok (s', some (delivery parts callback))
        → s'.state ≡ completed
        → ((i : ℕ) → i < length parts → Arrived i ps)
        → Arrives ps r

  add_chunk-Arrives :
      (ps : List Part) (s : Stream C) (p : Part)
      → IsPart parts callback p
      → Waiting ps s
      → Arrives (p ∷ ps) (add_chunk s p.sequence p.payload p.is_last p.arrival)
  add_chunk-Arrives ps s p h w =
      rw (add_chunk-stored s w.partial p)
        (seen_from (loop-Progress parts callback small _ _ (stored-Partial s w.partial p h) enough))
    where
      enough : length (stored-Partial s w.partial p h).chunks < fuel_for (stored s w.partial p)
      enough = unfold stored-Partial fuel_for stored in omega arith

      widen :
          (i : ℕ)
          → Seen parts callback (stored s w.partial p) (stored-Partial s w.partial p h) i
            ↔ Arrived i (p ∷ ps)
      widen i =
          let e = stored-Seen s w.partial p h i in
          let a = w.arrived i in
          (
            λ x. elim (e.0 x) [ inl q ↦ inl q | inr y ↦ inr (a.0 y) ],
            λ x. e.1 (elim x [ inl q ↦ inl q | inr y ↦ inr (a.1 y) ]),
          )

      seen_from :
          {r : Outcome Fault (Result C)}
          → Progress parts callback small (stored s w.partial p) (stored-Partial s w.partial p h) r
          → Arrives (p ∷ ps) r
      seen_from (waits s' v' q gap same) = keeps s' q (record {
        partial = v';
        gap = gap;
        arrived = λ i. (λ x. (widen i).0 ((same i).1 x), λ y. (same i).0 ((widen i).1 y));
      })
      seen_from (done s' q closed all) = ends s' q closed (λ i lt. (widen i).0 (all i lt))

  -- before the first arrival
  active-Waiting :
      (id : Bytes) (now : ℕ) (on_error : Option C)
      → 0 < length parts
      → Waiting [] (active_stream id now (some callback) on_error)
  unfolding active_stream new_stream is_closed
  active-Waiting id now on_error h = record {
    partial = record {
      chunks = [];
      open_map = refl;
      not_closed = refl;
      held = λ i c q. absurd (ground (arith, get-empty {V = StreamChunk} i));
      total = inl refl;
      data_so_far = refl;
      unfinished = h;
      notified = refl;
    };
    gap = get-empty {V = StreamChunk} 0;
    arrived = λ i. ground (arith, get-empty {V = StreamChunk} i);
  }

  -- What all arrivals do: a part is missing and nothing was delivered, or none is and the message
  -- was, once.
  data Finishes (before ps : List Part) (r : Outcome Fault (Stream C × List (Delivery C)))
      : Type 0 where
    lacks :
        (s : Stream C) (i : ℕ)
        → r ≡ ok (s, [])
        → is_closed s.state ≡ false
        → i < length parts
        → ¬ Arrived i before
        → ¬ Arrived i ps
        → Finishes before ps r
    whole :
        (s : Stream C)
        → r ≡ ok (s, delivery parts callback ∷ [])
        → s.state ≡ completed
        → ((i : ℕ) → i < length parts → Arrived i before ⊎ Arrived i ps)
        → Finishes before ps r

  add_chunks-Finishes :
      (before ps : List Part) (s : Stream C)
      → All (IsPart parts callback) ps
      → Waiting before s
      → Finishes before ps (add_chunks s ps)
  unfolding add_chunks
  add_chunks-Finishes before [] s h w =
      lacks s s.expected_sequence refl w.partial.not_closed w.partial.unfinished
        (λ a. elim ((w.arrived s.expected_sequence).1 a) [
          | inl lt ↦ omega arith
          | inr held ↦ held w.gap
        ])
        (λ a. a)
  add_chunks-Finishes before (p ∷ ps) s h w = elim (add_chunk-Arrives before s p h.0 w) [
    | keeps s' q w' ↦ rw (q) (elim (add_chunks-Finishes (p ∷ before) ps s' h.1 w') [
      | lacks t i r open_ lt a b ↦
          lacks t i (rw r) open_ lt (λ x. a (inr x))
            (λ x. elim x [ inl y ↦ a (inl y) | inr y ↦ b y ])
      | whole t r closed all ↦ whole t (rw r) closed (λ i lt. elim (all i lt) [
        | inl (inl y) ↦ inr (inl y)
        | inl (inr y) ↦ inl y
        | inr y ↦ inr (inr y)
      ])
    ])
    | ends s' q closed all ↦
        whole s' (rw (q, add_chunks-closed s' ps (unfold is_closed in rw closed))) closed
          (λ i lt. elim (all i lt) [ inl y ↦ inr (inl y) | inr y ↦ inl y ])
  ]

module _ {C : Type 0} (parts : List Bytes) (callback : C) (id : Bytes) (now : ℕ)
    (on_error : Option C) (ps : List Part) (small : length parts < 2 ^ 32)
    (some_part : 0 < length parts) (valid : All (IsPart parts callback) ps) where
  from_start :
      Finishes parts callback small [] ps
        (add_chunks (active_stream id now (some callback) on_error) ps)
  from_start =
      add_chunks-Finishes parts callback small [] ps _ valid
        (active-Waiting parts callback small id now on_error some_part)

  -- Once every part has arrived, in any order and with any repetitions, `OnComplete` has been
  -- called once, on the parts of the message in order, and the stream is completed.
  pub reassembles :
      ((i : ℕ) → i < length parts → Arrived i ps)
      → (s : Stream C) × (add_chunks (active_stream id now (some callback) on_error) ps
          ≡ ok (s, record { callback = callback; message = concat parts } ∷ []))
        × (s.state ≡ completed)
  reassembles all = elim from_start [
    | lacks s i r not_closed lt a b ↦ absurd (b (all i lt))
    | whole s r closed _ ↦ (s, r, closed)
  ]

  -- While a part is missing, `OnComplete` has not been called and the stream is open.
  pub delivers_nothing_early :
      (i : ℕ)
      → i < length parts
      → ¬ Arrived i ps
      → (s : Stream C) × (add_chunks (active_stream id now (some callback) on_error) ps
          ≡ ok (s, []))
        × (is_closed s.state ≡ false)
  delivers_nothing_early i lt missing = elim from_start [
    | lacks s j r not_closed _ _ _ ↦ (s, r, not_closed)
    | whole s r closed all ↦ absurd (elim (all i lt) [ inl x ↦ x | inr y ↦ missing y ])
  ]
