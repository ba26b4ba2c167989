-- ===== src/Wire.antt =====
-- The binary frame of internal/server/protocol/binary.go (`BuildBinaryMessage`,
-- `ParseBinaryMessage`) and its twin in internal/client/utils.go. A byte, a `MessageType` and
-- `MessageFlags` are numbers below 256, a `uint32` a number below 2 ^ 32.
pub mod Buffer
pub mod Reads
pub mod RoundTrip
pub mod Panics
pub mod Accepts
mod Tests
use inlets.Common.{
  ℕ, zero, suc, ◌+◌, ◌-◌, ◌*◌, ◌/◌, ◌%◌, ◌^◌, ◌≤◌, ◌<◌, List, [], ◌∷◌, ◌++◌, Bytes, length, take,
  drop, replicate, Outcome, ok, err, panic, ◌>>=◌, ◌>>◌, fail_if, ltb, if◌then◌else◌, ◌≡◌, refl,
}

pub record BinaryMessage : Type 0 where
  pub message_type : ℕ
  pub stream_id : Bytes
  pub sequence : ℕ
  pub flags : ℕ
  pub payload : Bytes

pub data WireError : Type 0 where
  stream_id_too_long too_short too_short_for_stream_id too_short_for_data : WireError

-- `copy(buffer[offset:], src)`, and a store at one index as the copy of one byte
pub copy_at : ℕ → Bytes → Bytes → Bytes
copy_at zero [] buffer = buffer
copy_at zero (b ∷ src) [] = []
copy_at zero (b ∷ src) (_ ∷ buffer) = b ∷ copy_at zero src buffer
copy_at (suc offset) src [] = []
copy_at (suc offset) src (b ∷ buffer) = b ∷ copy_at offset src buffer

-- `binary.BigEndian.PutUint32`
abbrev pub put_uint32 : ℕ → Bytes
put_uint32 v = (v / 2 ^ 24 % 256) ∷ (v / 2 ^ 16 % 256) ∷ (v / 2 ^ 8 % 256) ∷ (v % 256) ∷ []

-- the seven stores into the buffer
pub write_frame : BinaryMessage → Bytes → Bytes
write_frame msg buffer =
    let n = length msg.stream_id in
    let b₁ = copy_at 0 (msg.message_type % 256 ∷ []) buffer in
    let b₂ = copy_at 1 (n % 256 ∷ []) b₁ in
    let b₃ = copy_at 2 msg.stream_id b₂ in
    let b₄ = copy_at (2 + n) (put_uint32 msg.sequence) b₃ in
    let b₅ = copy_at (2 + n + 4) (msg.flags % 256 ∷ []) b₄ in
    let b₆ = copy_at (2 + n + 4 + 1) (put_uint32 (length msg.payload % 2 ^ 32)) b₅ in
    copy_at (2 + n + 4 + 1 + 4) msg.payload b₆

pub frame_size : BinaryMessage → ℕ
frame_size msg = 1 + 1 + length msg.stream_id + 4 + 1 + 4 + length msg.payload

unfoldable pub build_binary_message : BinaryMessage → Outcome WireError Bytes
unfolding write_frame frame_size copy_at
build_binary_message msg =
    if ltb 255 (length msg.stream_id)
    then err stream_id_too_long
    else ok (write_frame msg (replicate (frame_size msg) 0))

-- the client's copy panics where the server's returns an error
pub client_build_binary_message : BinaryMessage → Outcome WireError Bytes
unfolding write_frame frame_size copy_at
client_build_binary_message msg =
    if ltb 255 (length msg.stream_id)
    then panic
    else ok (write_frame msg (replicate (frame_size msg) 0))

module _ {E : Type 0} where
  pub first_byte : Bytes → Outcome E ℕ
  first_byte [] = panic
  first_byte (b ∷ _) = ok b

  -- `buffer[i]`
  pub byte_at : Bytes → ℕ → Outcome E ℕ
  unfolding first_byte
  byte_at buffer i = first_byte (drop i buffer)

  pub first_uint32 : Bytes → Outcome E ℕ
  first_uint32 (a ∷ b ∷ c ∷ d ∷ _) = ok (a * 2 ^ 24 + b * 2 ^ 16 + c * 2 ^ 8 + d)
  first_uint32 _ = panic

  -- `binary.BigEndian.Uint32(buffer[i:])`
  pub uint32_at : Bytes → ℕ → Outcome E ℕ
  unfolding first_uint32
  uint32_at buffer i = if ltb (length buffer) i then panic else first_uint32 (drop i buffer)

  -- `buffer[i : i+n]` of a buffer that has no spare capacity
  pub slice : Bytes → ℕ → ℕ → Outcome E Bytes
  slice buffer i n = if ltb (length buffer) (i + n) then panic else ok (take n (drop i buffer))

-- what both parsers do once the stream id is known to lie in the buffer
pub parse_after_stream_id : Bytes → ℕ → ℕ → Outcome WireError BinaryMessage
parse_after_stream_id buffer t n = do
  stream_id ← slice buffer 2 n
  sequence ← uint32_at buffer (2 + n)
  flags ← byte_at buffer (2 + n + 4)
  data_length ← uint32_at buffer (2 + n + 4 + 1)
  fail_if (ltb (length buffer) (2 + n + 4 + 1 + 4 + data_length)) too_short_for_data
  payload ← slice buffer (2 + n + 4 + 1 + 4) data_length
  ok (record {
    message_type = t;
    stream_id = stream_id;
    sequence = sequence;
    flags = flags;
    payload = payload;
  })

pub parse_binary_message : Bytes → Outcome WireError BinaryMessage
parse_binary_message buffer = do
  fail_if (ltb (length buffer) 11) too_short
  t ← byte_at buffer 0
  n ← byte_at buffer 1
  fail_if (ltb (length buffer) (2 + n)) too_short_for_stream_id
  parse_after_stream_id buffer t n

-- the client asks for the whole header here
pub client_parse_binary_message : Bytes → Outcome WireError BinaryMessage
client_parse_binary_message buffer = do
  fail_if (ltb (length buffer) 11) too_short
  t ← byte_at buffer 0
  n ← byte_at buffer 1
  fail_if (ltb (length buffer) (2 + n + 4 + 1 + 4)) too_short_for_stream_id
  parse_after_stream_id buffer t n
