-- ===== src/Wire/RoundTrip.antt =====
-- What the parsers make of a buffer that is laid out as a frame.
use inlets.Common.{
  ◌+◌, ◌%◌, ◌^◌, ◌≤◌, ◌<◌, ◌≡◌, refl, sym, ◌∙◌, ◌∷◌, [], ◌++◌, append_assoc, Bytes, length,
  length-append, arith, ok, le→ltb,
}
use inlets.Wire.{
  BinaryMessage, parse_after_stream_id, parse_binary_message, client_parse_binary_message,
  put_uint32, build_binary_message,
}
use inlets.Wire.Buffer.{frame, build-eq-frame}
use inlets.Wire.Reads.{byte_at_layout, uint32_at_layout, slice_layout}

-- The bytes of a message are bytes, its sequence number is a `uint32`, and its lengths fit the
-- fields that carry them.
pub record IsEncodable (msg : BinaryMessage) : Type 0 where
  pub message_type : msg.message_type < 256
  pub stream_id : length msg.stream_id ≤ 255
  pub sequence : msg.sequence < 2 ^ 32
  pub flags : msg.flags < 256
  pub payload : length msg.payload < 2 ^ 32

-- a frame, its numbers written without their wrap-around, and what follows it in the buffer
abbrev pub layout : BinaryMessage → Bytes → Bytes
layout msg rest =
    msg.message_type
    ∷ length msg.stream_id
    ∷ (msg.stream_id
        ++ (put_uint32 msg.sequence
            ++ (msg.flags ∷ (put_uint32 (length msg.payload) ++ (msg.payload ++ rest)))))

length-layout :
    (msg : BinaryMessage) (rest : Bytes)
    → length (layout msg rest) ≡ 11 + length msg.stream_id + length msg.payload + length rest
length-layout msg rest = omega (
  arith,
  length-append msg.stream_id (
      put_uint32 msg.sequence
      ++ (msg.flags ∷ (put_uint32 (length msg.payload) ++ (msg.payload ++ rest)))),
  length-append msg.payload rest,
)

parse_after-layout :
    (msg : BinaryMessage) (rest : Bytes)
    → IsEncodable msg
    → parse_after_stream_id (layout msg rest) msg.message_type (length msg.stream_id) ≡ ok msg
unfolding parse_after_stream_id
parse_after-layout msg rest v =
    let n = length msg.stream_id in
    let d = length msg.payload in
    let head : Bytes = msg.message_type ∷ n ∷ [] in
    let p : Bytes = head ++ msg.stream_id in
    let q : Bytes = p ++ put_uint32 msg.sequence in
    let r : Bytes = q ++ (msg.flags ∷ []) in
    let s : Bytes = r ++ put_uint32 d in
    let after_r : Bytes = put_uint32 d ++ (msg.payload ++ rest) in
    let e₃ : layout msg rest ≡ q ++ (msg.flags ∷ after_r) =
      sym (append_assoc p (put_uint32 msg.sequence) (msg.flags ∷ after_r)) in
    let e₄ : layout msg rest ≡ r ++ after_r = e₃ ∙ sym (append_assoc q (msg.flags ∷ []) after_r) in
    let e₅ : layout msg rest ≡ s ++ (msg.payload ++ rest) =
      e₄ ∙ sym (append_assoc r (put_uint32 d) (msg.payload ++ rest)) in
    let lq = length-append p (put_uint32 msg.sequence) in
    let lr = length-append q (msg.flags ∷ []) in
    let ls = length-append r (put_uint32 d) in
    rw (
      slice_layout head msg.stream_id _ 2 n refl refl refl,
      uint32_at_layout p msg.sequence _ (2 + n) refl (omega arith) v.sequence,
      byte_at_layout q msg.flags after_r (2 + n + 4) e₃ (omega (arith, lq)),
      uint32_at_layout r d _ (2 + n + 4 + 1) e₄ (omega (arith, lq, lr)) v.payload,
      le→ltb (length (layout msg rest)) (2 + n + 4 + 1 + 4 + d)
          (omega (arith, length-layout msg rest)),
      slice_layout s msg.payload rest (2 + n + 4 + 1 + 4) d e₅ (omega (arith, lq, lr, ls)) refl,
    )

module _ (msg : BinaryMessage) (rest : Bytes) (v : IsEncodable msg) where
  parse-layout : parse_binary_message (layout msg rest) ≡ ok msg
  unfolding parse_binary_message
  parse-layout =
      let size = length-layout msg rest in
      rw
        (
          le→ltb (length (layout msg rest)) 11 (omega (arith, size)),
          byte_at_layout {b = layout msg rest} [] msg.message_type _ 0 refl refl,
          byte_at_layout {b = layout msg rest} (msg.message_type ∷ []) (length msg.stream_id) _ 1
              refl refl,
          le→ltb (length (layout msg rest)) (2 + length msg.stream_id) (omega (arith, size)),
        )
        (parse_after-layout msg rest v)

  client_parse-layout : client_parse_binary_message (layout msg rest) ≡ ok msg
  unfolding client_parse_binary_message
  client_parse-layout =
      let size = length-layout msg rest in
      rw
        (
          le→ltb (length (layout msg rest)) 11 (omega (arith, size)),
          byte_at_layout {b = layout msg rest} [] msg.message_type _ 0 refl refl,
          byte_at_layout {b = layout msg rest} (msg.message_type ∷ []) (length msg.stream_id) _ 1
              refl refl,
          le→ltb (length (layout msg rest)) (2 + length msg.stream_id + 4 + 1 + 4)
              (omega (arith, size)),
        )
        (parse_after-layout msg rest v)

-- The numbers of an encodable message do not wrap.
pub frame-eq-layout :
    (msg : BinaryMessage) (rest : Bytes) → IsEncodable msg → frame msg ++ rest ≡ layout msg rest
frame-eq-layout msg rest v =
    let t : msg.message_type % 256 ≡ msg.message_type = omega (arith, v.message_type) in
    let n : length msg.stream_id % 256 ≡ length msg.stream_id = omega (arith, v.stream_id) in
    let f : msg.flags % 256 ≡ msg.flags = omega (arith, v.flags) in
    let d : length msg.payload % 2 ^ 32 ≡ length msg.payload = omega (arith, v.payload) in
    rw (t, n, f, d) (simp append_assoc)

-- Server and client read back the message that was built, whatever follows its frame.
pub parse-build :
    (msg : BinaryMessage) (rest : Bytes)
    → IsEncodable msg
    → (b : Bytes) × (build_binary_message msg ≡ ok b)
      × (parse_binary_message (b ++ rest) ≡ ok msg)
      × (client_parse_binary_message (b ++ rest) ≡ ok msg)
parse-build msg rest v = (
  frame msg,
  build-eq-frame msg v.stream_id,
  rw (frame-eq-layout msg rest v) (parse-layout msg rest v),
  rw (frame-eq-layout msg rest v) (client_parse-layout msg rest v),
)
