-- ===== src/Limiter/Uploads.antt =====
-- What CheckUpload never lets through, after any run of calls, whoever makes them.
use inlets.Common.{◌≡◌, List, [], ◌∷◌, Option, none, some, Bytes}
use inlets.Common.Int.{ℤ}
use inlets.Limiter.{Float64, TokenBucket, BandwidthLimiter, Clock, check_upload}

-- A call of CheckUpload.
pub record Upload : Type 0 where
  pub client_id : Bytes
  pub size : ℤ
  pub clock : Clock

module _ {F : Type 0} (float : Float64 F) where
  -- the limiter that a run of calls leaves
  unfoldable pub after_uploads : BandwidthLimiter F → List Upload → BandwidthLimiter F
  after_uploads bl [] = bl
  after_uploads bl (x ∷ xs) = after_uploads (check_upload float bl x.client_id x.size x.clock).0 xs

  -- the bucket is there and has this capacity
  abbrev pub Holds : F → Option (TokenBucket F) → Type 0
  Holds capacity none = ⊥
  Holds capacity (some tb) = tb.capacity ≡ capacity
