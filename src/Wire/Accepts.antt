-- ===== src/Wire/Accepts.antt =====
-- Whatever the server's parser accepts begins with the frame of the message that it returns.
use inlets.Common.{
  ℕ, zero, suc, ◌+◌, ◌*◌, ◌^◌, ◌<◌, ◌≡◌, sym, ap, ◌∷◌, [], ◌++◌, Bytes, length, length-take,
  length-drop, take, drop, drop_add, take-append-drop, arith, ok, ltb, ltb→le, Bool-cases, inl, inr,
  bind_ok, fail_if_ok,
}
use inlets.Wire.{
  BinaryMessage, WireError, too_short, too_short_for_stream_id, too_short_for_data,
  parse_after_stream_id, parse_binary_message, byte_at, uint32_at, slice, first_byte, first_uint32,
  put_uint32, build_binary_message,
}
use inlets.Wire.Buffer.{frame, build-eq-frame}
use inlets.Wire.RoundTrip.{IsEncodable, layout, frame-eq-layout}

abbrev pub IsBytes : Bytes → Type 0
IsBytes [] = Unit {0}
IsBytes (x ∷ xs) = (x < 256) × IsBytes xs

drop-IsBytes : (n : ℕ) (xs : Bytes) → IsBytes xs → IsBytes (drop n xs)
drop-IsBytes zero xs h = h
drop-IsBytes (suc n) [] h = h
drop-IsBytes (suc n) (x ∷ xs) h = drop-IsBytes n xs h.1

first_byte_shape :
    (xs : Bytes) (x : ℕ)
    → IsBytes xs
    → first_byte {E = WireError} xs ≡ ok x
    → (xs ≡ x ∷ drop 1 xs) × (x < 256)
unfolding first_byte
first_byte_shape [] x v h = cc
first_byte_shape (y ∷ xs) x v h = let e : y ≡ x = cc in (ap (λ (z : ℕ). z ∷ xs) e, rw (← e) v.0)

byte_at_shape :
    (b : Bytes) (i x : ℕ)
    → IsBytes b
    → byte_at {E = WireError} b i ≡ ok x
    → (drop i b ≡ x ∷ drop (i + 1) b) × (x < 256)
unfolding byte_at
byte_at_shape b i x v h = rw (drop_add i 1 b) (first_byte_shape (drop i b) x (drop-IsBytes i b v) h)

first_uint32_shape :
    (xs : Bytes) (x : ℕ)
    → IsBytes xs
    → first_uint32 {E = WireError} xs ≡ ok x
    → (xs ≡ put_uint32 x ++ drop 4 xs) × (x < 2 ^ 32)
unfolding first_uint32
first_uint32_shape (a ∷ b ∷ c ∷ d ∷ xs) x v h =
    let e : a * 2 ^ 24 + b * 2 ^ 16 + c * 2 ^ 8 + d ≡ x = cc in ground arith
first_uint32_shape [] x v h = cc
first_uint32_shape (a ∷ []) x v h = cc
first_uint32_shape (a ∷ b ∷ []) x v h = cc
first_uint32_shape (a ∷ b ∷ c ∷ []) x v h = cc

uint32_at_shape :
    (b : Bytes) (i x : ℕ)
    → IsBytes b
    → uint32_at {E = WireError} b i ≡ ok x
    → (drop i b ≡ put_uint32 x ++ drop (i + 4) b) × (x < 2 ^ 32)
unfolding uint32_at
uint32_at_shape b i x v h = elim (Bool-cases (ltb (length b) i)) [
  | inl out ↦ absurd (ground arith)
  | inr inside ↦
      rw (drop_add i 4 b) (first_uint32_shape (drop i b) x (drop-IsBytes i b v) (rw inside at h))
]

slice_shape :
    (b : Bytes) (i n : ℕ) (xs : Bytes)
    → slice {E = WireError} b i n ≡ ok xs
    → (drop i b ≡ xs ++ drop (i + n) b) × (length xs ≡ n)
unfolding slice
slice_shape b i n xs h = elim (Bool-cases (ltb (length b) (i + n))) [
  | inl out ↦ absurd (ground arith)
  | inr inside ↦
      let e : take n (drop i b) ≡ xs = ground arith in
      rw (← e, drop_add i n b)
        (
          sym (take-append-drop n (drop i b)),
          omega (arith, length-take n (drop i b), length-drop i b, ltb→le _ _ inside),
        )
]

-- what the reads behind the first two bytes found
record Found (b : Bytes) (t n : ℕ) (m : BinaryMessage) : Type 0 where
  message_type : m.message_type ≡ t
  stream_id : slice {E = WireError} b 2 n ≡ ok m.stream_id
  sequence : uint32_at {E = WireError} b (2 + n) ≡ ok m.sequence
  flags : byte_at {E = WireError} b (2 + n + 4) ≡ ok m.flags
  size : ℕ
  data_length : uint32_at {E = WireError} b (2 + n + 4 + 1) ≡ ok size
  payload : slice {E = WireError} b (2 + n + 4 + 1 + 4) size ≡ ok m.payload

parse_after-Found :
    (b : Bytes) (t n : ℕ) (m : BinaryMessage) → parse_after_stream_id b t n ≡ ok m → Found b t n m
unfolding parse_after_stream_id
parse_after-Found b t n m h = bind_ok (slice b 2 n) _ h λ sid e₁ h₁.
    bind_ok (uint32_at b (2 + n)) _ h₁ λ seq e₂ h₂. bind_ok (byte_at b (2 + n + 4)) _ h₂ λ fl e₃ h₃.
      bind_ok (uint32_at b (2 + n + 4 + 1)) _ h₃ λ d e₄ h₄.
        fail_if_ok (ltb (length b) (2 + n + 4 + 1 + 4 + d)) too_short_for_data _ h₄ λ fits h₅.
          bind_ok (slice b (2 + n + 4 + 1 + 4) d) _ h₅ λ pl e₅ h₆. record {
            message_type = ground arith;
            stream_id = ground arith;
            sequence = ground arith;
            flags = ground arith;
            size = d;
            data_length = e₄;
            payload = ground arith;
          }

module _ {b : Bytes} {t n : ℕ} {m : BinaryMessage} (v : IsBytes b) (f : Found b t n m) where
  Found-IsEncodable : t < 256 → n < 256 → IsEncodable m
  Found-IsEncodable ht hn = record {
    message_type = omega (arith, f.message_type);
    stream_id = omega (arith, (slice_shape b 2 n m.stream_id f.stream_id).1);
    sequence = (uint32_at_shape b (2 + n) m.sequence v f.sequence).1;
    flags = (byte_at_shape b (2 + n + 4) m.flags v f.flags).1;
    payload = omega (
      arith,
      (slice_shape b (2 + n + 4 + 1 + 4) f.size m.payload f.payload).1,
      (uint32_at_shape b (2 + n + 4 + 1) f.size v f.data_length).1,
    );
  }

  Found-drop :
      drop 2 b
      ≡ m.stream_id
        ++ (put_uint32 m.sequence
            ++ (m.flags
                ∷ (put_uint32 (length m.payload)
                    ++ (m.payload ++ drop (2 + n + 4 + 1 + 4 + f.size) b))))
  Found-drop =
      let (s₅, l₅) = slice_shape b (2 + n + 4 + 1 + 4) f.size m.payload f.payload in
      rw (
        (slice_shape b 2 n m.stream_id f.stream_id).0,
        (uint32_at_shape b (2 + n) m.sequence v f.sequence).0,
        (byte_at_shape b (2 + n + 4) m.flags v f.flags).0,
        (uint32_at_shape b (2 + n + 4 + 1) f.size v f.data_length).0,
        s₅,
        l₅,
      )

Found-layout :
    {t n : ℕ} {r : Bytes} {m : BinaryMessage} (v : IsBytes (t ∷ n ∷ r))
    (f : Found (t ∷ n ∷ r) t n m)
    → t ∷ n ∷ r ≡ layout m (drop (2 + n + 4 + 1 + 4 + f.size) (t ∷ n ∷ r))
Found-layout {t} {n} {r} {m} v f =
    rw (f.message_type, (slice_shape (t ∷ n ∷ r) 2 n m.stream_id f.stream_id).1)
      (ap (λ (xs : Bytes). t ∷ n ∷ xs) (Found-drop v f))

-- A buffer of bytes that the server accepts is the frame of the message that it returns, with
-- perhaps more behind it.
pub parse-accepts :
    (b : Bytes) (m : BinaryMessage)
    → IsBytes b
    → parse_binary_message b ≡ ok m
    → (f rest : Bytes) × (build_binary_message m ≡ ok f) × (b ≡ f ++ rest)
unfolding parse_binary_message byte_at first_byte
parse-accepts [] m v h = absurd (cc)
parse-accepts (t ∷ []) m v h = absurd (cc)
parse-accepts (t ∷ n ∷ r) m v h = fail_if_ok (ltb (length (t ∷ n ∷ r)) 11) too_short _ h λ _ h₁.
    fail_if_ok (ltb (length (t ∷ n ∷ r)) (2 + n)) too_short_for_stream_id _ h₁ λ _ h₂.
      let f = parse_after-Found (t ∷ n ∷ r) t n m h₂ in
      let e = Found-IsEncodable v f v.0 v.1.0 in
      let rest = drop (2 + n + 4 + 1 + 4 + f.size) (t ∷ n ∷ r) in
      (
        frame m,
        rest,
        build-eq-frame m e.stream_id,
        rw (frame-eq-layout m rest e) (Found-layout v f),
      )
