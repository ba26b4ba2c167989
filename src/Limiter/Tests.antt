-- ===== src/Limiter/Tests.antt =====
-- The limiter at concrete calls, with numbers in billionths in place of float64. No number here is
-- negative.
use inlets.Common.{
  ℕ, ◌+◌, ◌-◌, ◌*◌, ◌/◌, ◌^◌, ◌≡◌, refl, List, [], ◌∷◌, true, false, none, some, bytes_key,
  Bytes-discrete, ℕ_discrete, codes, panic, ltb, leb,
}
use inlets.Common.Int.{ℤ, pos, negsuc}
use inlets.Common.Dict
use inlets.Limiter.{
  Float64, TokenBucket, BandwidthLimiter, BandwidthLimit, ClientBandwidthLimits, Clock, check,
  check_upload, new_bandwidth_limiter, client_bucket, limit_of, get_client_upload_bucket, may,
  spend, can_consume, consume, refill, lesser, new_token_bucket, update_limits, rebuild,
}
use inlets.Limiter.Uploads.{Upload, after_uploads}

abbrev billion : ℕ
billion = 10 ^ 9

abbrev whole : ℤ → ℕ
whole (pos n) = n * billion
whole (negsuc n) = 0

abbrev billionths : Float64 ℕ
billionths = record {
  of_int64 = whole;
  seconds = λ n. n;
  add = λ a b. a + b;
  sub = λ a b. a - b;
  mul = λ a b. a * b / billion;
  less = ltb;
  at_least = λ a b. leb b a;
}

-- 100 bytes a second for all, 60 for the client `c`
abbrev all_limit : BandwidthLimit
all_limit = record { upload = some (pos 100); download = none }

abbrev limits : ClientBandwidthLimits
limits = record {
  by_client_id = some ((codes "c", some (record { upload = some (pos 60); download = none })) ∷ []);
  global = some all_limit;
}

abbrev at : ℕ → Clock
at t i = t

abbrev limiter : BandwidthLimiter ℕ
limiter = new_bandwidth_limiter billionths (some limits) (at 0)

abbrev uploads : List Upload
uploads =
    record { client_id = codes "c"; size = pos 50; clock = at 0 }
    ∷ record { client_id = codes "d"; size = pos 50; clock = at (2 * 10 ^ 8) }
    ∷ []

-- the client's own limit refuses its second upload
own_limit :
    (check_upload billionths
      (after_uploads billionths limiter uploads)
      (codes "c")
      (pos 50)
      (at (3 * 10 ^ 8))).1
    ≡ false
unfolding after_uploads check_upload check new_bandwidth_limiter client_bucket limit_of
    get_client_upload_bucket may spend can_consume consume refill lesser new_token_bucket Dict.get
    Dict.put Bytes-discrete ℕ_discrete
own_limit = refl

own_limit_refilled :
    (check_upload billionths
      (after_uploads billionths limiter uploads)
      (codes "c")
      (pos 50)
      (at (10 ^ 9))).1
    ≡ true
unfolding after_uploads check_upload check new_bandwidth_limiter client_bucket limit_of
    get_client_upload_bucket may spend can_consume consume refill lesser new_token_bucket Dict.get
    Dict.put Bytes-discrete ℕ_discrete
own_limit_refilled = refl

-- a limit that is null in the configuration
null_limit :
    update_limits billionths
      (new_bandwidth_limiter billionths none (at 0))
      (some (record { by_client_id = some ((codes "c", none) ∷ []); global = none }))
      (at 0)
    ≡ panic
unfolding update_limits rebuild
null_limit = refl

abbrev full : ℕ → TokenBucket ℕ
full n = record {
  tokens = n * billion;
  last_refill = 0;
  capacity = n * billion;
  refill_rate = n * billion;
}
