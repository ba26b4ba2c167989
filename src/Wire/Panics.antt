-- ===== src/Wire/Panics.antt =====
-- The server's parser asks only for the stream id where the client's asks for the whole header.
use inlets.Common.{
  ℕ, ◌+◌, ◌≤◌, ◌<◌, ◌≡◌, refl, ◌≢◌, ◌↔◌, ◌∷◌, [], Bytes, length, arith, err, panic, ltb, ltb→lt,
  ltb→le, Bool-cases, inl, inr, ◌⊎◌,
}
use inlets.Wire.{
  WireError, too_short_for_stream_id, parse_after_stream_id, parse_binary_message,
  client_parse_binary_message, byte_at, first_byte,
}
use inlets.Wire.Reads.{byte_at_ok, byte_at_panic, uint32_at_ok, uint32_at_panic, slice_ok}

module _ (b : Bytes) (t n : ℕ) (sid : 2 + n ≤ length b) where
  -- Behind the stream id the parsers read nine more bytes of header.
  parse_after_panics : length b < 11 + n → parse_after_stream_id b t n ≡ panic
  unfolding parse_after_stream_id
  parse_after_panics h = rw (slice_ok b 2 n sid) (elim (Bool-cases (ltb (length b) (2 + n + 4))) [
    | inl no_sequence ↦ rw (uint32_at_panic b (2 + n) (ltb→lt _ _ no_sequence))
    | inr e ↦
        let (s, es) = uint32_at_ok {E = WireError} b (2 + n) (ltb→le _ _ e) in
        rw es (elim (Bool-cases (ltb (length b) (2 + n + 4 + 1))) [
          | inl no_flags ↦ rw (byte_at_panic b (2 + n + 4) (ltb→lt _ _ no_flags))
          | inr e' ↦
              let (f, ef) = byte_at_ok {E = WireError} b (2 + n + 4) (ltb→le _ _ e') in
              rw (ef, uint32_at_panic b (2 + n + 4 + 1) (omega arith))
        ])
  ])

  parse_after_returns : 11 + n ≤ length b → parse_after_stream_id b t n ≢ panic
  unfolding parse_after_stream_id
  parse_after_returns h =
      let (s, es) = uint32_at_ok {E = WireError} b (2 + n) (omega arith) in
      let (f, ef) = byte_at_ok {E = WireError} b (2 + n + 4) (omega arith) in
      let (d, ed) = uint32_at_ok {E = WireError} b (2 + n + 4 + 1) (omega arith) in
      rw (slice_ok b 2 n sid, es, ef, ed)
        (elim (Bool-cases (ltb (length b) (2 + n + 4 + 1 + 4 + d))) [
          | inl short ↦ rw short (λ p. cc)
          | inr fits ↦ rw (fits, slice_ok b (2 + n + 4 + 1 + 4) d (ltb→le _ _ fits)) (λ p. cc)
        ])

-- A buffer whose stream id is there and whose header is cut off behind it.
abbrev pub IsCutOff : Bytes → Type 0
IsCutOff (t ∷ n ∷ rest) = (9 ≤ length rest) × (n ≤ length rest) × (length rest < 9 + n)
IsCutOff _ = ⊥

-- The server's parser panics exactly on the buffers that hold the eleven bytes of the shortest frame
-- and their stream id but end before the header that follows it does.
pub parse_panics_iff : (b : Bytes) → (parse_binary_message b ≡ panic) ↔ IsCutOff b
unfolding parse_binary_message byte_at first_byte
parse_panics_iff [] = (λ p. cc, absurd)
parse_panics_iff (t ∷ []) = (λ p. cc, absurd)
parse_panics_iff (t ∷ n ∷ r) = (
  ground (arith, parse_after_returns (t ∷ n ∷ r) t n, parse_after_panics (t ∷ n ∷ r) t n),
  ground (arith, parse_after_returns (t ∷ n ∷ r) t n, parse_after_panics (t ∷ n ∷ r) t n),
)

-- Where the server's parser does not panic, the client's returns the same; where it panics, the
-- client's reports that the message is too short.
pub parsers_agree :
    (b : Bytes)
    → ((parse_binary_message b ≢ panic) × (client_parse_binary_message b ≡ parse_binary_message b))
      ⊎ ((parse_binary_message b ≡ panic)
          × (client_parse_binary_message b ≡ err too_short_for_stream_id))
unfolding parse_binary_message client_parse_binary_message byte_at first_byte
parsers_agree [] = inl (λ p. cc, refl)
parsers_agree (t ∷ []) = inl (λ p. cc, refl)
parsers_agree (t ∷ n ∷ r) =
    ground (arith, parse_after_panics (t ∷ n ∷ r) t n, parse_after_returns (t ∷ n ∷ r) t n)
