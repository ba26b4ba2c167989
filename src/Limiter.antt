-- ===== src/Limiter.antt =====
-- internal/server/limiter/bandwidth.go: token buckets, and the limiter that holds one for the server
-- and one for each client, in both directions. The arithmetic of float64 is a parameter: `F` is the
-- type, `float` its operations. `clock i` is what the i-th call of time.Now in an operation returns,
-- in nanoseconds; it does not go back. Other goroutines do not run in the middle of an operation.
pub mod Buckets
pub mod Checks
pub mod Uploads
mod Tests
use inlets.Common.{
  ℕ, zero, suc, ◌+◌, ◌-◌, ◌*◌, ◌^◌, List, [], ◌∷◌, Bool, true, false, Option, none, some, Bytes,
  bytes_key, if◌then◌else◌, Outcome, ok, err, panic, ◌>>=◌,
}
use inlets.Common.Int.{ℤ, pos}
use inlets.Common.Dict
use inlets.Common.Dict.{Dict}

abbrev pub Clock : Type 0
Clock = ℕ → ℕ

-- float64, whose operations are the processor's. `less` is `<` and `at_least` is `>=`; `seconds` is
-- time.Duration.Seconds of a number of nanoseconds.
pub record Float64 (F : Type 0) : Type 0 where
  pub of_int64 : ℤ → F
  pub seconds : ℕ → F
  pub add : F → F → F
  pub sub : F → F → F
  pub mul : F → F → F
  pub less : F → F → Bool
  pub at_least : F → F → Bool

pub record TokenBucket (F : Type 0) : Type 0 where
  pub tokens : F
  pub last_refill : ℕ
  pub capacity : F
  pub refill_rate : F

pub record BandwidthLimit : Type 0 where
  pub upload : Option ℤ
  pub download : Option ℤ

-- `none` is a nil map; an entry may be a nil pointer.
pub record ClientBandwidthLimits : Type 0 where
  pub by_client_id : Option (Dict Bytes (Option BandwidthLimit))
  pub global : Option BandwidthLimit

pub record BandwidthLimiter (F : Type 0) : Type 0 where
  pub limits : ClientBandwidthLimits
  pub global_upload : Option (TokenBucket F)
  pub global_download : Option (TokenBucket F)
  pub client_upload : Dict Bytes (TokenBucket F)
  pub client_download : Dict Bytes (TokenBucket F)

abbrev no_limits : ClientBandwidthLimits
no_limits = record { by_client_id = some []; global = none }

abbrev pub given : Option ClientBandwidthLimits → ClientBandwidthLimits
given none = no_limits
given (some limits) = limits

abbrev pub upload_of : Option BandwidthLimit → Option ℤ
upload_of none = none
upload_of (some limit) = limit.upload

abbrev pub download_of : Option BandwidthLimit → Option ℤ
download_of none = none
download_of (some limit) = limit.download

-- `bl.limits.ByClientId[clientId]`, nil where it is not there
unfoldable pub limit_of : ClientBandwidthLimits → Bytes → Option BandwidthLimit
limit_of limits id = elim limits.by_client_id [
  | none ↦ none
  | some m ↦ elim (Dict.get id m) [ none ↦ none | some limit ↦ limit ]
]

-- a rate that is given replaces the old one
abbrev pub or_old : Option ℤ → Option ℤ → Option ℤ
or_old none old = old
or_old (some rate) old = some rate

abbrev entries : Option (Dict Bytes (Option BandwidthLimit)) → Dict Bytes (Option BandwidthLimit)
entries none = []
entries (some m) = m

unfoldable pub without :
    Option (Dict Bytes (Option BandwidthLimit))
    → Bytes
    → Option (Dict Bytes (Option BandwidthLimit))
without none id = none
without (some m) id = some (Dict.remove id m)

module _ {F : Type 0} (float : Float64 F) where
  unfoldable pub new_token_bucket : F → F → ℕ → TokenBucket F
  new_token_bucket capacity rate now = record {
    tokens = capacity;
    last_refill = now;
    capacity = capacity;
    refill_rate = rate;
  }

  -- `min`
  unfoldable pub lesser : F → F → F
  lesser a b = if float.less a b then a else b

  unfoldable pub refill : TokenBucket F → ℕ → TokenBucket F
  refill tb now =
      let elapsed = float.seconds (now - tb.last_refill) in
      let tokens_to_add = float.mul elapsed tb.refill_rate in
      record tb {
        tokens = lesser tb.capacity (float.add tb.tokens tokens_to_add);
        last_refill = now;
      }

  unfoldable pub can_consume : TokenBucket F → F → ℕ → TokenBucket F × Bool
  can_consume tb tokens now = let tb' = refill tb now in (tb', float.at_least tb'.tokens tokens)

  unfoldable pub consume : TokenBucket F → F → ℕ → TokenBucket F × Bool
  consume tb tokens now =
      let tb' = refill tb now in
      if float.at_least tb'.tokens tokens
      then (record tb' { tokens = float.sub tb'.tokens tokens }, true)
      else (tb', false)

  unfoldable pub get_available_tokens : TokenBucket F → ℕ → TokenBucket F × F
  get_available_tokens tb now = let tb' = refill tb now in (tb', tb'.tokens)

  -- the bucket of a limit that is set
  abbrev pub bucket_of : Option ℤ → ℕ → Option (TokenBucket F)
  bucket_of none now = none
  bucket_of (some rate) now =
      some (new_token_bucket (float.of_int64 rate) (float.of_int64 rate) now)

  unfoldable pub new_bandwidth_limiter : Option ClientBandwidthLimits → Clock → (BandwidthLimiter F)
  new_bandwidth_limiter l clock = record {
    limits = given l;
    global_upload = bucket_of (upload_of (given l).global) (clock 0);
    global_download = bucket_of (download_of (given l).global) (clock 1);
    client_upload = [];
    client_download = [];
  }

  -- the bucket of a client whose limit is `rate`, made where it is missing
  unfoldable pub client_bucket :
      Option ℤ
      → Dict Bytes (TokenBucket F)
      → Bytes
      → ℕ
      → Dict Bytes (TokenBucket F) × Option (TokenBucket F)
  client_bucket none buckets id now = (buckets, none)
  client_bucket (some rate) buckets id now = elim (Dict.get id buckets) [
    | some bucket ↦ (buckets, some bucket)
    | none ↦
        let bucket = new_token_bucket (float.of_int64 rate) (float.of_int64 rate) now in
        (Dict.put id bucket buckets, some bucket)
  ]

  unfoldable pub get_client_upload_bucket :
      (BandwidthLimiter F) → Bytes → ℕ → (BandwidthLimiter F) × Option (TokenBucket F)
  get_client_upload_bucket bl [] now = (bl, none)
  get_client_upload_bucket bl (b ∷ id) now =
      let (buckets, bucket) =
        client_bucket (upload_of (limit_of bl.limits (b ∷ id))) bl.client_upload (b ∷ id) now in
      (record bl { client_upload = buckets }, bucket)

  unfoldable pub get_client_download_bucket :
      (BandwidthLimiter F) → Bytes → ℕ → (BandwidthLimiter F) × Option (TokenBucket F)
  get_client_download_bucket bl [] now = (bl, none)
  get_client_download_bucket bl (b ∷ id) now =
      let (buckets, bucket) =
        client_bucket (download_of (limit_of bl.limits (b ∷ id))) bl.client_download (b ∷ id) now in
      (record bl { client_download = buckets }, bucket)

  -- a bucket that may be missing, which then allows everything
  unfoldable pub may : Option (TokenBucket F) → ℤ → ℕ → Option (TokenBucket F) × Bool
  may none bytes now = (none, true)
  may (some tb) bytes now =
      let (tb', r) = can_consume tb (float.of_int64 bytes) now in (some tb', r)

  unfoldable pub spend : Option (TokenBucket F) → ℤ → ℕ → Option (TokenBucket F) × Bool
  spend none bytes now = (none, true)
  spend (some tb) bytes now = let (tb', r) = consume tb (float.of_int64 bytes) now in (some tb', r)

  -- both buckets are asked, then both are spent from, the global one first
  unfoldable pub check :
      Option (TokenBucket F)
      → Option (TokenBucket F)
      → ℤ
      → Clock
      → Option (TokenBucket F) × Option (TokenBucket F) × Bool
  check global client bytes clock =
      let (client1, may_client) = may client bytes (clock 1) in
      let (global1, may_global) = may global bytes (clock 2) in
      let (global2, spent_global) = spend global1 bytes (clock 3) in
      let (client2, spent_client) = spend client1 bytes (clock 4) in
      if may_client
      then if may_global
        then if spent_global then (global2, client2, spent_client) else (global2, client1, false)
        else (global1, client1, false)
      else (global, client1, false)

  -- a bucket that the map holds is written back
  abbrev pub kept :
      Bytes → Option (TokenBucket F) → Dict Bytes (TokenBucket F) → Dict Bytes (TokenBucket F)
  kept id none buckets = buckets
  kept id (some bucket) buckets = Dict.put id bucket buckets

  unfoldable pub check_upload :
      (BandwidthLimiter F) → Bytes → ℤ → Clock → (BandwidthLimiter F) × Bool
  check_upload bl [] bytes clock =
      let (global, r) = spend bl.global_upload bytes (clock 0) in
      (record bl { global_upload = global }, r)
  check_upload bl (b ∷ id) bytes clock =
      let (bl', client) = get_client_upload_bucket bl (b ∷ id) (clock 0) in
      let (global', client', r) = check bl'.global_upload client bytes clock in
      (
        record bl' {
          global_upload = global';
          client_upload = kept (b ∷ id) client' bl'.client_upload;
        },
        r,
      )

  unfoldable pub check_download :
      (BandwidthLimiter F) → Bytes → ℤ → Clock → (BandwidthLimiter F) × Bool
  check_download bl [] bytes clock =
      let (global, r) = spend bl.global_download bytes (clock 0) in
      (record bl { global_download = global }, r)
  check_download bl (b ∷ id) bytes clock =
      let (bl', client) = get_client_download_bucket bl (b ∷ id) (clock 0) in
      let (global', client', r) = check bl'.global_download client bytes clock in
      (
        record bl' {
          global_download = global';
          client_download = kept (b ∷ id) client' bl'.client_download;
        },
        r,
      )

  unfoldable pub set_client_limit :
      (BandwidthLimiter F) → Bytes → BandwidthLimit → Clock → (BandwidthLimiter F)
  set_client_limit bl id limit clock =
      let old = limit_of bl.limits id in
      let merged : BandwidthLimit = record {
        upload = or_old limit.upload (upload_of old);
        download = or_old limit.download (download_of old);
      } in
      record bl {
        limits = record bl.limits {
          by_client_id = some (Dict.put id (some merged) (entries bl.limits.by_client_id));
        };
        client_upload = kept id (bucket_of limit.upload (clock 0)) bl.client_upload;
        client_download = kept id (bucket_of limit.download (clock 1)) bl.client_download;
      }

  unfoldable pub remove_client_limit : (BandwidthLimiter F) → Bytes → (BandwidthLimiter F)
  remove_client_limit bl id = record bl {
    limits = record bl.limits { by_client_id = without bl.limits.by_client_id id };
    client_upload = Dict.remove id bl.client_upload;
    client_download = Dict.remove id bl.client_download;
  }

  -- the buckets of the limits in a direction, made at one time; a nil limit is dereferenced
  unfoldable pub rebuild :
      (BandwidthLimit → Option ℤ)
      → Dict Bytes (Option BandwidthLimit)
      → ℕ
      → Outcome ⊥ (Dict Bytes (TokenBucket F))
  rebuild rate [] now = ok []
  rebuild rate ((id, none) ∷ m) now = panic
  rebuild rate ((id, some limit) ∷ m) now = do
    buckets ← rebuild rate m now
    ok (kept id (bucket_of (rate limit) now) buckets)

  unfoldable pub update_limits :
      (BandwidthLimiter F) → Option ClientBandwidthLimits → Clock → Outcome ⊥ (BandwidthLimiter F)
  update_limits bl l clock = do
    uploads ← rebuild (λ r. r.upload) (entries (given l).by_client_id) (clock 2)
    downloads ← rebuild (λ r. r.download) (entries (given l).by_client_id) (clock 3)
    ok (record bl {
      limits = given l;
      global_upload = bucket_of (upload_of (given l).global) (clock 0);
      global_download = bucket_of (download_of (given l).global) (clock 1);
      client_upload = uploads;
      client_download = downloads;
    })
