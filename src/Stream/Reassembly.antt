-- ===== src/Stream/Reassembly.antt =====
-- The parts of one message, arriving in any order and any number of times each, are put together
-- in their own order. `parts` are the payloads of the message, `callback` its `OnComplete`.
use inlets.Common.{
  ℕ, zero, suc, ◌+◌, ◌%◌, ◌^◌, ◌<◌, ◌≡◌, refl, ◌≢◌, ◌⊎◌, inl, inr, List, ◌++◌, Bool, true, false,
  Option, none, some, ap, sym, ◌∙◌, ◌↔◌, ℕ_key, Bytes, length, arith, Outcome, ok, take, get_elem?,
  concat, concat-take-suc, take_all, Option-cases, Bool-cases, ◌==◌,
}
use inlets.Common.Dict
use inlets.Common.Dict.{Dict, get-put, get-remove, length-remove_lt}
use inlets.Common.Int.{pos, negsuc}
use inlets.Stream.{
  Stream, StreamChunk, completed, Fault, Result, Delivery, is_closed, try_reassemble, merge_chunk,
  complete, deliver, total_reached,
}
use inlets.Stream.Loop.{round_gap, round_last, round_more}

-- One call of `AddChunk`: a sequence number, its data, the FIN flag and the time.
pub record Part : Type 0 where
  pub sequence : ℕ
  pub payload : Bytes
  pub is_last : Bool
  pub arrival : ℕ

-- the data of the first `e` parts: nil before the first
abbrev merged : List Bytes → ℕ → Option Bytes
merged parts zero = none
merged parts (suc e) = some (concat (take (suc e) parts))

module _ {C : Type 0} (parts : List Bytes) (callback : C) where
  -- `p` is a part of the message.
  pub record IsPart (p : Part) : Type 0 where
    pub found : get_elem? parts p.sequence ≡ some p.payload
    pub last : p.is_last ≡ (suc p.sequence == length parts)

  -- A stream within its loop: it has merged a proper prefix of the message, and holds parts only.
  pub record Partial (s : Stream C) : Type 0 where
    pub chunks : Dict ℕ StreamChunk
    pub open_map : s.chunks ≡ some chunks
    pub not_closed : is_closed s.state ≡ false
    pub held :
        (i : ℕ) (c : StreamChunk)
        → Dict.get i chunks ≡ some c
        → (get_elem? parts i ≡ some c.payload) × (c.is_last ≡ (suc i == length parts))
    pub total : (s.total_chunks ≡ negsuc 0) ⊎ (s.total_chunks ≡ pos (length parts))
    pub data_so_far : s.completed_data ≡ merged parts s.expected_sequence
    pub unfinished : s.expected_sequence < length parts
    pub notified : s.on_complete ≡ some callback

  -- Part `i` has been merged or is held.
  abbrev pub Seen : (s : Stream C) → Partial s → ℕ → Type 0
  Seen s p i = (i < s.expected_sequence) ⊎ (Dict.get i p.chunks ≢ none)

  abbrev pub delivery : Delivery C
  delivery = record { callback = callback; message = concat parts }

module _ {C : Type 0} (parts : List Bytes) (callback : C) (small : length parts < 2 ^ 32) where
  merged-suc :
      (e : ℕ) (p : Bytes)
      → get_elem? parts e ≡ some p
      → some (elim (merged parts e) [ none ↦ p | some x ↦ x ++ p ]) ≡ merged parts (suc e)
  merged-suc zero p h = ap some (sym (concat-take-suc parts 0 p h))
  merged-suc (suc e) p h = ap some (sym (concat-take-suc parts (suc e) p h))

  next_sequence :
      (s : Stream C)
      → Partial parts callback s
      → (s.expected_sequence + 1) % 2 ^ 32 ≡ suc s.expected_sequence
  next_sequence s p = omega (arith, p.unfinished)

  merged_next :
      (s : Stream C) (p : Partial parts callback s) (c : StreamChunk)
      → Dict.get s.expected_sequence p.chunks ≡ some c
      → (merge_chunk s p.chunks c).completed_data ≡ merged parts (suc s.expected_sequence)
  unfolding merge_chunk
  merged_next s p c h =
      rw p.data_so_far (merged-suc s.expected_sequence c.payload (p.held s.expected_sequence c h).0)

  -- A round that merges a part that is not the last keeps the stream within its loop.
  merge-Partial :
      (s : Stream C) (p : Partial parts callback s) (c : StreamChunk)
      → Dict.get s.expected_sequence p.chunks ≡ some c
      → c.is_last ≡ false
      → Partial parts callback (merge_chunk s p.chunks c)
  merge-Partial s p c h e = record {
    chunks = Dict.remove s.expected_sequence p.chunks;
    open_map = unfold merge_chunk in refl;
    not_closed = unfold merge_chunk in p.not_closed;
    held = λ i c' q. p.held i c' (ground (arith, get-remove s.expected_sequence i p.chunks));
    total = unfold merge_chunk in p.total;
    data_so_far =
        unfold merge_chunk in rw (next_sequence s p) (unfold merge_chunk in merged_next s p c h);
    unfinished =
        unfold merge_chunk in
        rw (next_sequence s p) (ground (arith, (p.held s.expected_sequence c h).1, p.unfinished));
    notified = unfold merge_chunk in p.notified;
  }

  merge-Seen :
      (s : Stream C) (p : Partial parts callback s) (c : StreamChunk)
      (h : Dict.get s.expected_sequence p.chunks ≡ some c) (e : c.is_last ≡ false) (i : ℕ)
      → Seen parts callback s p i
        ↔ Seen parts callback (merge_chunk s p.chunks c) (merge-Partial s p c h e) i
  unfolding merge-Partial merge_chunk
  merge-Seen s p c h e i =
      ground (arith, next_sequence s p, get-remove s.expected_sequence i p.chunks)

  -- The loop stops at a gap with the same parts seen, or hands over the whole message.
  pub data Progress (s : Stream C) (p : Partial parts callback s) (r : Outcome Fault (Result C))
      : Type 0 where
    waits :
        (s' : Stream C) (p' : Partial parts callback s')
        → r ≡ ok (s', none)
        → Dict.get s'.expected_sequence p'.chunks ≡ none
        → ((i : ℕ) → Seen parts callback s p i ↔ Seen parts callback s' p' i)
        → Progress s p r
    done :
        (s' : Stream C)
        → r ≡ ok (s', some (delivery parts callback))
        → s'.state ≡ completed
        → ((i : ℕ) → i < length parts → Seen parts callback s p i)
        → Progress s p r

  complete-delivers :
      (s : Stream C)
      → s.on_complete ≡ some callback
      → s.completed_data ≡ some (concat parts)
      → complete s ≡ (record s { state = completed }, some (delivery parts callback))
  unfolding complete deliver
  complete-delivers s f d = ground arith

  -- the last part ends the message
  last_round :
      (fuel : ℕ) (s : Stream C) (p : Partial parts callback s) (c : StreamChunk)
      → Dict.get s.expected_sequence p.chunks ≡ some c
      → c.is_last ≡ true
      → Progress s p (try_reassemble (suc fuel) s)
  last_round fuel s p c h e =
      let s' = merge_chunk s p.chunks c in
      let all : suc s.expected_sequence ≡ length parts =
        ground (arith, (p.held s.expected_sequence c h).1) in
      let whole : s'.completed_data ≡ some (concat parts) =
        merged_next s p c h
        ∙ ap (λ (xs : List Bytes). some (concat xs))
            (take_all (suc s.expected_sequence) parts (omega arith)) in
      let callback_set : s'.on_complete ≡ some callback = unfold merge_chunk in p.notified in
      done (record s' { state = completed })
        (round_last fuel s p.open_map h e ∙ ap ok (complete-delivers s' callback_set whole)) refl
        (λ i lt. ground arith)

  total_open :
      (s : Stream C) (p : Partial parts callback s) (c : StreamChunk)
      → Dict.get s.expected_sequence p.chunks ≡ some c
      → c.is_last ≡ false
      → total_reached (merge_chunk s p.chunks c) ≡ false
  unfolding total_reached merge_chunk
  total_open s p c h e =
      ground (arith, p.total, next_sequence s p, (p.held s.expected_sequence c h).1)

  -- what a later round comes to, seen from before the merge
  Progress-merge :
      (s : Stream C) (p : Partial parts callback s) (c : StreamChunk)
      (h : Dict.get s.expected_sequence p.chunks ≡ some c) (e : c.is_last ≡ false)
      {r : Outcome Fault (Result C)}
      → Progress (merge_chunk s p.chunks c) (merge-Partial s p c h e) r
      → Progress s p r
  Progress-merge s p c h e (waits s' p' q gap same) = waits s' p' q gap λ i.
      let before = merge-Seen s p c h e i in
      (λ x. (same i).0 (before.0 x), λ y. before.1 ((same i).1 y))
  Progress-merge s p c h e (done s' q closed all) =
      done s' q closed (λ i lt. (merge-Seen s p c h e i).1 (all i lt))

  pub loop-Progress :
      (fuel : ℕ) (s : Stream C) (p : Partial parts callback s)
      → length p.chunks < fuel
      → Progress s p (try_reassemble fuel s)
  loop-Progress zero s p h = absurd (omega arith)
  loop-Progress (suc fuel) s p h = elim (Option-cases (Dict.get s.expected_sequence p.chunks)) [
    | inl gap ↦ waits s p (round_gap fuel s p.open_map gap) gap (λ i. (λ z. z, λ z. z))
    | inr (c, e) ↦ elim (Bool-cases c.is_last) [
      | inl last ↦ last_round fuel s p c e last
      | inr more ↦ rw (round_more fuel s p.open_map e more (total_open s p c e more)) (
          Progress-merge s p c e more (
            loop-Progress fuel (merge_chunk s p.chunks c) (merge-Partial s p c e more) (
              unfold merge-Partial in
              omega (arith, length-remove_lt s.expected_sequence c p.chunks e))))
    ]
  ]
