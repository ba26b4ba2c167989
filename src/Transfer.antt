-- ===== src/Transfer.antt =====
-- The two ends of a streamed message: internal/server/protocol/binary.go cuts it with
-- `SplitIntoChunks`, numbers the chunks from 0 and marks the last, and the receiver's `AddChunk`
-- takes them as they arrive.
mod Tests
use inlets.Common.{
  ℕ, ◌<◌, ◌^◌, ◌≡◌, ◌∙◌, ap, List, [], ◌∷◌, Bytes, Option, some, All, length, length-append, concat,
  ◌≤◌, arith, ok,
}
use inlets.Common.Int.{ℤ, pos}
use inlets.Stream.{Stream, completed, active_stream}
use inlets.Stream.Reassembly.{Part, IsPart}
use inlets.Stream.Arrival.{Arrived, add_chunks, reassembles}
use inlets.Manager.{StreamManager, effective_size, split_into_chunks}
use inlets.Manager.Chunks.{IsChunk, split_into_chunks_total}

pub count_of_chunks :
    (size : ℕ) (chunks : List Bytes)
    → All (IsChunk size) chunks
    → length chunks ≤ length (concat chunks)
count_of_chunks size [] h = omega arith
count_of_chunks size (c ∷ cs) h =
    omega (arith, h.0.0, length-append c (concat cs), count_of_chunks size cs h.1)

pub some_chunk : (chunks : List Bytes) → 0 < length (concat chunks) → 0 < length chunks
some_chunk [] h = h
some_chunk (c ∷ cs) h = omega arith

-- The chunks that a message of at least one byte and less than 2 ^ 32 is cut into bring it to the
-- receiver's `OnComplete` whole and once, as soon as each has arrived at least once, whatever the
-- order.
pub split-reassembles :
    {C D : Type 0} (sm : StreamManager D) (payload : Bytes) (chunk_size : ℤ) (size fuel : ℕ)
    (chunks : List Bytes) (callback : C) (id : Bytes) (now : ℕ) (on_error : Option C)
    (ps : List Part)
    → effective_size sm chunk_size ≡ pos size
    → 0 < size
    → length payload < fuel
    → split_into_chunks fuel sm payload chunk_size ≡ ok chunks
    → 0 < length payload
    → length payload < 2 ^ 32
    → All (IsPart chunks callback) ps
    → ((i : ℕ) → i < length chunks → Arrived i ps)
    → (s : Stream C) × (add_chunks (active_stream id now (some callback) on_error) ps
        ≡ ok (s, record { callback = callback; message = payload } ∷ []))
      × (s.state ≡ completed)
split-reassembles sm payload chunk_size size fuel chunks callback id now on_error ps e h f r p l
      valid all =
    let (made, q, split) = split_into_chunks_total sm payload chunk_size size fuel e h f in
    let same : made ≡ chunks = cc in
    let whole : concat chunks ≡ payload = rw (← same) split.whole in
    let sized : All (IsChunk size) chunks = rw (← same) split.sized in
    let few : length chunks ≤ length payload = rw (← whole) (count_of_chunks size chunks sized) in
    let (s, t, closed) =
      reassembles chunks callback id now on_error ps (omega arith) (some_chunk chunks (rw whole p))
        valid all in
    (
      s,
      t ∙ ap (λ (x : Bytes). ok (s, record { callback = callback; message = x } ∷ [])) whole,
      closed,
    )
