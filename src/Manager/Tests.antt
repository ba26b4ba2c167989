-- ===== src/Manager/Tests.antt =====
-- The splitter and `cleanup` at concrete inputs.
use inlets.Common.{
  ℕ, List, [], ◌∷◌, ◌≡◌, ◌↔◌, refl, ◌^◌, ◌*◌, some, none, Bytes, bytes_key, codes, ok, err, arith,
}
use inlets.Common.Int.{pos}
use inlets.Stream.{Stream, active_stream, complete, out_of_fuel}
use inlets.Manager.{
  StreamManager, new_stream_manager, effective_size, split_into_chunks, get_stream, cleanup,
}
use inlets.Manager.Chunks.{IsSplit, split_into_chunks_total, split_into_chunks_diverges}
use inlets.Manager.Expiry.{Expired, cleanup_survivors}

abbrev three : StreamManager ℕ
three = new_stream_manager (pos 3)

abbrev message : Bytes
message = codes "abcdefg"

three_size : effective_size three (pos 0) ≡ pos 3
unfolding effective_size new_stream_manager
three_size = refl

split_into_chunks_total_example :
    (chunks : List Bytes) × (split_into_chunks 8 three message (pos 0) ≡ ok chunks)
    × IsSplit message 3 chunks
split_into_chunks_total_example =
    split_into_chunks_total three message (pos 0) 3 8 three_size (omega arith) (omega arith)

-- A negotiated default chunk size of 0.
abbrev none_negotiated : StreamManager ℕ
none_negotiated = new_stream_manager (pos 0)

none_negotiated_size : effective_size none_negotiated (pos 0) ≡ pos 0
unfolding effective_size new_stream_manager
none_negotiated_size = refl

split_into_chunks_diverges_example :
    split_into_chunks 1000 none_negotiated message (pos 0) ≡ err out_of_fuel
split_into_chunks_diverges_example =
    split_into_chunks_diverges none_negotiated message (pos 0) 1000 none_negotiated_size
      (omega arith)

-- A stream that is finished, one that stalled for three minutes and one that is active.
abbrev minute : ℕ
minute = 60 * 10 ^ 9

abbrev mixed : StreamManager ℕ
mixed = record three {
  streams = some (
      (codes "f", (complete (active_stream (codes "f") (3 * minute) none none)).0)
      ∷ (codes "s", active_stream (codes "s") 0 none (some 5))
      ∷ (codes "a", active_stream (codes "a") (2 * minute) none none)
      ∷ []);
}

-- the stream that stalled
abbrev stalled : Stream ℕ
stalled = active_stream (codes "s") 0 none (some 5)

cleanup_survivors_example :
    (get_stream (cleanup mixed (3 * minute)).0 (codes "s") ≡ some stalled)
    ↔ ((get_stream mixed (codes "s") ≡ some stalled) × ¬ Expired mixed (3 * minute) stalled)
cleanup_survivors_example = cleanup_survivors mixed (3 * minute) (codes "s") stalled
