-- ===== src/Manager/Chunks.antt =====
-- The chunks of `SplitIntoChunks` are the data, cut into pieces of the chunk size.
use inlets.Common.{
  ℕ, zero, suc, ◌+◌, ◌-◌, ◌*◌, ◌≤◌, ◌<◌, min, ◌≡◌, refl, sym, ap, List, [], ◌∷◌, ◌++◌, Bytes,
  length, take, drop, drop_add, length-take, length-drop, concat, All, ltb, Bool-cases, inl, inr,
  ltb→lt, ltb→le, lt→ltb, arith, ok, err, drop_all,
}
use inlets.Common.Int.{ℤ, pos}
use inlets.Stream.{out_of_fuel}
use inlets.Manager.{StreamManager, split_loop, split_into_chunks, effective_size}

-- A chunk is not empty and not longer than the chunk size.
abbrev pub IsChunk : ℕ → Bytes → Type 0
IsChunk size c = (0 < length c) × (length c ≤ size)

-- A split of `payload` into chunks, none too many.
pub record IsSplit (payload : Bytes) (size : ℕ) (chunks : List Bytes) : Type 0 where
  pub whole : concat chunks ≡ payload
  pub sized : All (IsChunk size) chunks
  pub count : length chunks * size < length payload + size

take-min : (size : ℕ) (xs : Bytes) → take (min size (length xs)) xs ++ drop size xs ≡ xs
take-min zero xs = let e : min 0 (length xs) ≡ 0 = omega arith in rw e
take-min (suc n) [] = let e : min (suc n) 0 ≡ 0 = omega arith in rw e
take-min (suc n) (x ∷ xs) =
    let e : min (suc n) (suc (length xs)) ≡ suc (min n (length xs)) = omega arith in
    rw e (ap (◌∷◌ x) (take-min n xs))

-- fewer bytes than one chunk make no whole chunk
no_whole_chunk : (k size : ℕ) → k * size < size → k * size ≡ 0
no_whole_chunk zero size h = omega arith
no_whole_chunk (suc k) size h = absurd (omega arith)

count_next :
    (k size l i : ℕ) → i < l → k * size < l - (i + size) + size → suc k * size < l - i + size
count_next k size l i h c = elim (Bool-cases (ltb (i + size) l)) [
  | inl more ↦ omega (arith, ltb→lt _ _ more)
  | inr end ↦
      let z = no_whole_chunk k size (omega (arith, ltb→le _ _ end)) in
      omega (arith, z, ltb→le _ _ end)
]

split_loop-IsSplit :
    (fuel : ℕ) (payload : Bytes) (size i : ℕ)
    → 0 < size
    → length payload - i < fuel
    → (chunks : List Bytes) × (split_loop fuel payload size i ≡ ok chunks)
      × IsSplit (drop i payload) size chunks
unfolding split_loop
split_loop-IsSplit zero payload size i h f = absurd (omega arith)
split_loop-IsSplit (suc fuel) payload size i h f = elim (Bool-cases (ltb i (length payload))) [
  | inl more ↦
      let lt = ltb→lt i (length payload) more in
      let (chunks, e, s) = split_loop-IsSplit fuel payload size (i + size) h (omega (arith, lt)) in
      let c : Bytes = take (min (i + size) (length payload) - i) (drop i payload) in
      let len = length-drop i payload in
      let after = length-drop (i + size) payload in
      let cut : min (i + size) (length payload) - i ≡ min size (length (drop i payload)) =
        omega (arith, len) in
      let lc = length-take (min (i + size) (length payload) - i) (drop i payload) in
      (
        c ∷ chunks,
        rw (more, e),
        record {
          whole = rw (s.whole, drop_add i size payload) (rw cut (take-min size (drop i payload)));
          sized = ((omega (arith, lt, len, lc), omega (arith, lt, len, lc)), s.sized);
          count = omega (
            arith,
            len,
            count_next (length chunks) size (length payload) i lt (omega (arith, after, s.count)),
          );
        },
      )
  | inr done ↦ (
    [],
    rw done,
    record { whole = sym (drop_all i payload (ltb→le _ _ done)); sized = tt; count = omega arith },
  )
]

-- With a chunk size that is positive (the argument's, or else the default) the loop ends within
-- one round for each byte and one more, and its result is a split of the data.
pub split_into_chunks_total :
    {C : Type 0} (sm : StreamManager C) (payload : Bytes) (chunk_size : ℤ) (size fuel : ℕ)
    → effective_size sm chunk_size ≡ pos size
    → 0 < size
    → length payload < fuel
    → (chunks : List Bytes) × (split_into_chunks fuel sm payload chunk_size ≡ ok chunks)
      × IsSplit payload size chunks
unfolding split_into_chunks
split_into_chunks_total sm payload chunk_size size fuel e h f =
    let (chunks, r, s) = split_loop-IsSplit fuel payload size 0 h (omega arith) in
    (chunks, rw (e, split_into_chunks) r, s)

split_loop_stuck :
    (fuel : ℕ) (payload : Bytes) (i : ℕ)
    → i < length payload
    → split_loop fuel payload 0 i ≡ err out_of_fuel
unfolding split_loop
split_loop_stuck zero payload i h = refl
split_loop_stuck (suc fuel) payload i h =
    let e : i + 0 ≡ i = omega arith in
    rw (lt→ltb i (length payload) h, e, split_loop_stuck fuel payload i h)

-- With a chunk size of 0 the loop never ends on data that is not empty: no number of rounds is
-- enough.
pub split_into_chunks_diverges :
    {C : Type 0} (sm : StreamManager C) (payload : Bytes) (chunk_size : ℤ) (fuel : ℕ)
    → effective_size sm chunk_size ≡ pos 0
    → 0 < length payload
    → split_into_chunks fuel sm payload chunk_size ≡ err out_of_fuel
unfolding split_into_chunks
split_into_chunks_diverges sm payload chunk_size fuel e h =
    rw (e, split_into_chunks) (split_loop_stuck fuel payload 0 h)
