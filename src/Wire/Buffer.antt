-- ===== src/Wire/Buffer.antt =====
-- What the stores of `BuildBinaryMessage` leave in the buffer: the parts of the frame in order.
use inlets.Common.{
  ℕ, zero, suc, ◌+◌, ◌%◌, ◌^◌, ◌≤◌, ◌≡◌, refl, sym, ap, ◌∙◌, ◌∷◌, [], ◌++◌, append_assoc,
  append-nil, Bytes, length, length-append, replicate, arith, ok, le→ltb,
}
use inlets.Wire.{BinaryMessage, copy_at, put_uint32, write_frame, frame_size, build_binary_message}

-- the frame as its documentation draws it
abbrev pub frame : BinaryMessage → Bytes
frame msg =
    msg.message_type % 256
    ∷ length msg.stream_id % 256
    ∷ (msg.stream_id
        ++ (put_uint32 msg.sequence
            ++ (msg.flags % 256 ∷ (put_uint32 (length msg.payload % 2 ^ 32) ++ msg.payload))))

-- A copy that starts where the written prefix ends and fits into the zeros behind it.
copy_at-zeros :
    (pre src : Bytes) (o k m : ℕ)
    → o ≡ length pre
    → k ≡ length src + m
    → copy_at o src (pre ++ replicate k 0) ≡ pre ++ (src ++ replicate m 0)
unfolding copy_at
copy_at-zeros [] [] zero k m p q = rw q (ap (λ (n : ℕ). replicate n 0) (omega arith))
copy_at-zeros [] (b ∷ src) zero zero m p q = absurd (omega arith)
copy_at-zeros [] (b ∷ src) zero (suc k) m p q =
    ap (◌∷◌ b) (copy_at-zeros [] src 0 k m refl (omega arith))
copy_at-zeros [] src (suc o) k m p q = absurd (omega arith)
copy_at-zeros (a ∷ pre) src zero k m p q = absurd (omega arith)
copy_at-zeros (a ∷ pre) src (suc o) k m p q =
    ap (◌∷◌ a) (copy_at-zeros pre src o k m (omega arith) q)

-- `buffer` holds `pre`, of `o` bytes, and is zero in the `m` bytes behind it.
record Filled (pre : Bytes) (o m : ℕ) (buffer : Bytes) : Type 0 where
  size : length pre ≡ o
  split : buffer ≡ pre ++ replicate m 0

copy_at-Filled :
    {pre : Bytes} {o k : ℕ} {buffer : Bytes} (o' m : ℕ) (src : Bytes)
    → Filled pre o k buffer
    → o' ≡ o + length src
    → k ≡ length src + m
    → Filled (pre ++ src) o' m (copy_at o src buffer)
copy_at-Filled {pre} {o} {k} {buffer} o' m src h p q = record {
  size = omega (arith, length-append pre src, h.size);
  split =
      rw h.split
        (copy_at-zeros pre src o k m (sym h.size) q ∙ sym (append_assoc pre src (replicate m 0)));
}

pub write_frame-eq-frame :
    (msg : BinaryMessage) → write_frame msg (replicate (frame_size msg) 0) ≡ frame msg
unfolding write_frame frame_size
write_frame-eq-frame msg =
    let n = length msg.stream_id in
    let d = length msg.payload in
    let size : ℕ = 1 + 1 + n + 4 + 1 + 4 + d in
    let z : Filled [] 0 size (replicate size 0) = record { size = refl; split = refl } in
    let f₁ =
      copy_at-Filled 1 (1 + n + 4 + 1 + 4 + d) (msg.message_type % 256 ∷ []) z refl (omega arith) in
    let f₂ = copy_at-Filled 2 (n + 4 + 1 + 4 + d) (n % 256 ∷ []) f₁ refl (omega arith) in
    let f₃ = copy_at-Filled (2 + n) (4 + 1 + 4 + d) msg.stream_id f₂ refl (omega arith) in
    let f₄ =
      copy_at-Filled (2 + n + 4) (1 + 4 + d) (put_uint32 msg.sequence) f₃ refl (omega arith) in
    let f₅ = copy_at-Filled (2 + n + 4 + 1) (4 + d) (msg.flags % 256 ∷ []) f₄ refl (omega arith) in
    let f₆ = copy_at-Filled (2 + n + 4 + 1 + 4) d (put_uint32 (d % 2 ^ 32)) f₅ refl (omega arith) in
    let f₇ = copy_at-Filled (2 + n + 4 + 1 + 4 + d) 0 msg.payload f₆ refl (omega arith) in
    f₇.split ∙ simp (append_assoc, append-nil)

-- A stream id of up to 255 bytes is accepted, and the frame is what its documentation draws.
pub build-eq-frame :
    (msg : BinaryMessage) → length msg.stream_id ≤ 255 → build_binary_message msg ≡ ok (frame msg)
unfolding build_binary_message
build-eq-frame msg h = rw (le→ltb 255 (length msg.stream_id) h, write_frame-eq-frame msg)
