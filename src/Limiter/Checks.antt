-- ===== src/Limiter/Checks.antt =====
-- A check takes from both buckets or from none.
use inlets.Common.{ℕ, ◌≡◌, ◌⊎◌, Bool, true, false, Option, none, some}
use inlets.Common.Int.{pos}
use inlets.Limiter.{Float64, TokenBucket, refill}

-- the rate of a bucket, if there is one, is that of a limit that is not negative
abbrev pub HasRate : {F : Type 0} → Float64 F → Option (TokenBucket F) → Option ℕ → Type 0
HasRate float none rate = Unit
HasRate float (some tb) none = ⊥
HasRate float (some tb) (some r) = tb.refill_rate ≡ float.of_int64 (pos r)

module _ {F : Type 0} (float : Float64 F) where
  abbrev pub refilled : Option (TokenBucket F) → ℕ → Option (TokenBucket F)
  refilled none t = none
  refilled (some tb) t = some (refill float tb t)

  -- the bytes are there at a time; no bucket is no limit
  abbrev pub has_room : Option (TokenBucket F) → ℕ → ℕ → Bool
  has_room none b t = true
  has_room (some tb) b t = float.at_least (refill float tb t).tokens (float.of_int64 (pos b))

  abbrev pub paid : Option (TokenBucket F) → ℕ → Option (TokenBucket F)
  paid none b = none
  paid (some tb) b = some (record tb { tokens = float.sub tb.tokens (float.of_int64 (pos b)) })

  -- What a check may do to a bucket that it looks at twice: where it is allowed, it takes the
  -- bytes; else it refills the bucket or leaves it alone.
  abbrev pub Effect : Bool → Option (TokenBucket F) → Option (TokenBucket F) → ℕ → ℕ → ℕ → Type 0
  Effect true o o' b t u = o' ≡ paid (refilled (refilled o t) u) b
  Effect false o o' b t u = (o' ≡ o) ⊎ (o' ≡ refilled o t)
