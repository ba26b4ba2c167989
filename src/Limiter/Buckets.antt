-- ===== src/Limiter/Buckets.antt =====
-- What the limiter relies on of the arithmetic of float64, and what a refill does to a bucket.
use inlets.Common.{ℕ, ◌-◌, ◌^◌, ◌<◌, ◌≡◌, true, false, Bool-cases, inl, inr, if_case}
use inlets.Common.Int.{pos}
use inlets.Limiter.{Float64, TokenBucket, lesser, refill}

-- IEEE 754. `not_less` holds of NaN as well, which is at least nothing; what is converted is finite
-- and so is a product of an int64 and the seconds of an int64.
pub record IsIeee {F : Type 0} (float : Float64 F) : Type 0 where
  pub trans :
      (a b c : F)
      → float.at_least a b ≡ true
      → float.at_least b c ≡ true
      → float.at_least a c ≡ true
  pub not_less :
      (a b c : F) → float.less a b ≡ false → float.at_least b c ≡ true → float.at_least a c ≡ true
  -- conversion keeps the sign
  pub converts : (n : ℕ) → float.at_least (float.of_int64 (pos n)) (float.of_int64 (pos 0)) ≡ true
  -- a product of what is not negative is not negative
  pub product :
      (n r : ℕ)
      → float.at_least
          (float.mul (float.seconds n) (float.of_int64 (pos r)))
          (float.of_int64 (pos 0))
        ≡ true
  -- rounding does not make a sum of what is not negative less than a summand
  pub grows :
      (a x : F)
      → float.at_least a (float.of_int64 (pos 0)) ≡ true
      → float.at_least x (float.of_int64 (pos 0)) ≡ true
      → float.at_least (float.add a x) a ≡ true
  -- integers below 2^53 are exact
  pub exact :
      (a b : ℕ)
      → a < b
      → a < 2 ^ 53
      → float.at_least (float.of_int64 (pos a)) (float.of_int64 (pos b)) ≡ false

module _ {F : Type 0} (float : Float64 F) (ieee : IsIeee float) where
  -- what the lesser of two is at least, both are
  pub lesser_left :
      (a b c : F) → float.at_least (lesser float a b) c ≡ true → float.at_least a c ≡ true
  unfolding lesser
  lesser_left a b c h = elim (Bool-cases (float.less a b)) [
    | inl e ↦ rw e at h
    | inr e ↦ ieee.not_less a b c e (rw e at h)
  ]

  pub lesser_both :
      (a b c : F)
      → float.at_least a c ≡ true
      → float.at_least b c ≡ true
      → float.at_least (lesser float a b) c ≡ true
  unfolding lesser
  lesser_both a b c h k =
      if_case (λ (x : F). float.at_least x c ≡ true) (float.less a b) a b (λ e. h) (λ e. k)

  -- A bucket with a rate that is not negative, which has room for some bytes, has room later.
  pub refill_later :
      (tb : TokenBucket F) (r b t u : ℕ)
      → tb.refill_rate ≡ float.of_int64 (pos r)
      → float.at_least (refill float tb t).tokens (float.of_int64 (pos b)) ≡ true
      → float.at_least (refill float (refill float tb t) u).tokens (float.of_int64 (pos b)) ≡ true
  unfolding refill
  refill_later tb r b t u rate h =
      let bytes = float.of_int64 (pos b) in
      let held = (refill float tb t).tokens in
      let more = float.mul (float.seconds (u - t)) tb.refill_rate in
      let more_pos : float.at_least more (float.of_int64 (pos 0)) ≡ true =
        rw rate (ieee.product (u - t) r) in
      let held_pos = ieee.trans held bytes (float.of_int64 (pos 0)) h (ieee.converts b) in
      lesser_both tb.capacity (float.add held more) bytes (lesser_left tb.capacity _ bytes h)
        (ieee.trans (float.add held more) held bytes (ieee.grows held more held_pos more_pos) h)
