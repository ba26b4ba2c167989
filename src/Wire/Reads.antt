-- ===== src/Wire/Reads.antt =====
-- When the reads of the parsers succeed: exactly when the bytes that they ask for are there.
use inlets.Common.{
  ℕ, ◌+◌, ◌*◌, ◌^◌, ◌≤◌, ◌<◌, ◌≡◌, refl, ap, ◌∷◌, [], ◌++◌, Bytes, length, length-append,
  length-drop, take, drop, take-append_exact, drop-append_exact, arith, ok, panic, le→ltb, ltb→le,
  ltb, Bool-cases, inl, inr,
}
use inlets.Wire.{first_byte, byte_at, first_uint32, uint32_at, slice, put_uint32}

module _ {E : Type 0} where
  first_byte_ok : (xs : Bytes) → 1 ≤ length xs → (v : ℕ) × (first_byte {E = E} xs ≡ ok v)
  unfolding first_byte
  first_byte_ok [] h = absurd (omega arith)
  first_byte_ok (x ∷ xs) h = (x, refl)

  first_byte_panic : (xs : Bytes) → length xs < 1 → first_byte {E = E} xs ≡ panic
  unfolding first_byte
  first_byte_panic [] h = refl
  first_byte_panic (x ∷ xs) h = absurd (omega arith)

  first_uint32_ok : (xs : Bytes) → 4 ≤ length xs → (v : ℕ) × (first_uint32 {E = E} xs ≡ ok v)
  unfolding first_uint32
  first_uint32_ok (a ∷ b ∷ c ∷ d ∷ xs) h = (a * 2 ^ 24 + b * 2 ^ 16 + c * 2 ^ 8 + d, refl)
  first_uint32_ok [] h = absurd (omega arith)
  first_uint32_ok (a ∷ []) h = absurd (omega arith)
  first_uint32_ok (a ∷ b ∷ []) h = absurd (omega arith)
  first_uint32_ok (a ∷ b ∷ c ∷ []) h = absurd (omega arith)

  first_uint32_panic : (xs : Bytes) → length xs < 4 → first_uint32 {E = E} xs ≡ panic
  unfolding first_uint32
  first_uint32_panic (a ∷ b ∷ c ∷ d ∷ xs) h = absurd (omega arith)
  first_uint32_panic [] h = refl
  first_uint32_panic (a ∷ []) h = refl
  first_uint32_panic (a ∷ b ∷ []) h = refl
  first_uint32_panic (a ∷ b ∷ c ∷ []) h = refl

  pub byte_at_ok : (b : Bytes) (i : ℕ) → i + 1 ≤ length b → (v : ℕ) × (byte_at {E = E} b i ≡ ok v)
  unfolding byte_at
  byte_at_ok b i h = first_byte_ok (drop i b) (omega (arith, length-drop i b))

  pub byte_at_panic : (b : Bytes) (i : ℕ) → length b < i + 1 → byte_at {E = E} b i ≡ panic
  unfolding byte_at
  byte_at_panic b i h = first_byte_panic (drop i b) (omega (arith, length-drop i b))

  pub uint32_at_ok :
      (b : Bytes) (i : ℕ) → i + 4 ≤ length b → (v : ℕ) × (uint32_at {E = E} b i ≡ ok v)
  unfolding uint32_at
  uint32_at_ok b i h =
      rw (le→ltb (length b) i (omega arith))
        (first_uint32_ok (drop i b) (omega (arith, length-drop i b)))

  pub uint32_at_panic : (b : Bytes) (i : ℕ) → length b < i + 4 → uint32_at {E = E} b i ≡ panic
  unfolding uint32_at
  uint32_at_panic b i h = elim (Bool-cases (ltb (length b) i)) [
    | inl out ↦ rw out
    | inr inside ↦
        rw inside
          (first_uint32_panic (drop i b) (omega (arith, length-drop i b, ltb→le _ _ inside)))
  ]

  pub slice_ok :
      (b : Bytes) (i n : ℕ) → i + n ≤ length b → slice {E = E} b i n ≡ ok (take n (drop i b))
  unfolding slice
  slice_ok b i n h = rw (le→ltb (length b) (i + n) h)

  first_uint32-put_uint32 :
      (v : ℕ) (rest : Bytes) → v < 2 ^ 32 → first_uint32 {E = E} (put_uint32 v ++ rest) ≡ ok v
  unfolding first_uint32
  first_uint32-put_uint32 v rest h = ap ok (omega arith)

  -- What a read finds at the end of a prefix of known length.
  pub byte_at_layout :
      {b : Bytes} (pre : Bytes) (x : ℕ) (rest : Bytes) (o : ℕ)
      → b ≡ pre ++ (x ∷ rest)
      → o ≡ length pre
      → byte_at {E = E} b o ≡ ok x
  unfolding byte_at first_byte
  byte_at_layout pre x rest o e p = rw (e, p, drop-append_exact pre (x ∷ rest))

  pub uint32_at_layout :
      {b : Bytes} (pre : Bytes) (v : ℕ) (rest : Bytes) (o : ℕ)
      → b ≡ pre ++ (put_uint32 v ++ rest)
      → o ≡ length pre
      → v < 2 ^ 32
      → uint32_at {E = E} b o ≡ ok v
  unfolding uint32_at
  uint32_at_layout pre v rest o e p h =
      rw
        (
          e,
          p,
          le→ltb (length (pre ++ (put_uint32 v ++ rest))) (length pre)
              (omega (arith, length-append pre (put_uint32 v ++ rest))),
          drop-append_exact pre (put_uint32 v ++ rest),
        )
        (first_uint32-put_uint32 v rest h)

  pub slice_layout :
      {b : Bytes} (pre xs rest : Bytes) (o n : ℕ)
      → b ≡ pre ++ (xs ++ rest)
      → o ≡ length pre
      → n ≡ length xs
      → slice {E = E} b o n ≡ ok xs
  slice_layout pre xs rest o n e p q = rw (
    e,
    p,
    q,
    slice_ok (pre ++ (xs ++ rest)) (length pre) (length xs)
        (omega (arith, length-append pre (xs ++ rest), length-append xs rest)),
    drop-append_exact pre (xs ++ rest),
    take-append_exact xs rest,
  )
