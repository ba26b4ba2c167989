-- ===== src/Stream/Loop.antt =====
-- The rounds of `tryReassemble`, one equation for each way through the loop's body.
use inlets.Common.{ℕ, suc, ◌≡◌, true, false, none, some, ℕ_key, arith, ok}
use inlets.Common.Dict
use inlets.Common.Dict.{Dict}
use inlets.Stream.{Stream, StreamChunk, try_reassemble, merge_chunk, complete, total_reached}

module _ {C : Type 0} (fuel : ℕ) (s : Stream C) {m : Dict ℕ StreamChunk}
    (open_map : s.chunks ≡ some m) where
  pub round_gap : Dict.get s.expected_sequence m ≡ none → try_reassemble (suc fuel) s ≡ ok (s, none)
  unfolding try_reassemble
  round_gap h = ground arith

  pub round_last :
      {c : StreamChunk}
      → Dict.get s.expected_sequence m ≡ some c
      → c.is_last ≡ true
      → try_reassemble (suc fuel) s ≡ ok (complete (merge_chunk s m c))
  unfolding try_reassemble
  round_last h e = ground arith

  pub round_more :
      {c : StreamChunk}
      → Dict.get s.expected_sequence m ≡ some c
      → c.is_last ≡ false
      → total_reached (merge_chunk s m c) ≡ false
      → try_reassemble (suc fuel) s ≡ try_reassemble fuel (merge_chunk s m c)
  unfolding try_reassemble
  round_more h e t = ground arith
