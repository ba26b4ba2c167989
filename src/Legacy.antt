-- ===== src/Legacy.antt =====
-- internal/server/protocol/legacy.go and internal/legacytunnel/codec.go: what clients without
-- capabilities speak, JSON events with base64 and a compressor. JSON and the sockets are left out:
-- a payload is the texts `id` and `data`, a missing one being empty, or `none` if it is no object.
pub mod RawHttp
pub mod Exchange
pub mod Tests
use inlets.Common.{
  ℕ, ◌+◌, List, [], ◌∷◌, Bool, true, false, ◌&&◌, ◌||◌, Option, none, some, Bytes, codes, take, ltb,
  leb, ◌==◌, if◌then◌else◌, Outcome, ok, err, panic, ◌>>=◌, ℕ_key,
}
use inlets.Common.Int.{ℤ, pos, negsuc}
use inlets.Common.Text.{trim_space, atoi, split}
use inlets.Common.Dict
use inlets.Common.Dict.{Dict}
use inlets.Protocol.{Codec}

-- encoding/base64, which is not the program's. `none` is an error.
pub record Base64 : Type 0 where
  pub encode_to_string : Bytes → Bytes
  pub decode_string : Bytes → Option Bytes

pub data LegacyError : Type 0 where
  compress_failed : LegacyError
  outer_base64 : LegacyError
  decompress_outer : LegacyError
  inner_base64 : LegacyError

-- strings.HasPrefix
unfoldable pub has_prefix : Bytes → Bytes → Bool
has_prefix s [] = true
has_prefix [] (p ∷ prefix) = false
has_prefix (b ∷ s) (p ∷ prefix) = b == p && has_prefix s prefix

abbrev pub has_one_of : Bytes → List Bytes → Bool
has_one_of s [] = false
has_one_of s (p ∷ ps) = has_prefix s p || has_one_of s ps

abbrev raw_starts : List Bytes
raw_starts =
    codes "HTTP/"
    ∷ codes "GET "
    ∷ codes "POST "
    ∷ codes "PUT "
    ∷ codes "DELETE "
    ∷ codes "HEAD "
    ∷ codes "OPTIONS "
    ∷ codes "CONNECT "
    ∷ codes "PATCH "
    ∷ codes "TRACE "
    ∷ []

unfoldable pub looks_like_raw_http : Bytes → Bool
looks_like_raw_http [] = false
looks_like_raw_http (b ∷ s) = has_one_of (take 24 (b ∷ s)) raw_starts

abbrev encoded_or_error : Base64 → Option Bytes → Outcome LegacyError Bytes
encoded_or_error base64 none = err compress_failed
encoded_or_error base64 (some b) = ok (base64.encode_to_string b)

unfoldable pub encode_outer : Codec → Base64 → Bytes → Outcome LegacyError Bytes
encode_outer codec base64 inner = encoded_or_error base64 (codec.compress_brotli inner)

abbrev or_gzip : Option Bytes → Option Bytes → Option Bytes
or_gzip none inner = inner
or_gzip (some inner) _ = some inner

abbrev decoded_or_error : LegacyError → Option Bytes → Outcome LegacyError Bytes
decoded_or_error e none = err e
decoded_or_error e (some raw) = ok raw

abbrev decode_inner : Base64 → Option Bytes → Outcome LegacyError Bytes
decode_inner base64 none = err decompress_outer
decode_inner base64 (some inner) = decoded_or_error inner_base64 (base64.decode_string inner)

abbrev decode_wire : Codec → Base64 → Option Bytes → Outcome LegacyError Bytes
decode_wire codec base64 none = err outer_base64
decode_wire codec base64 (some b) =
    if looks_like_raw_http b
    then ok b
    else decode_inner base64 (or_gzip (codec.decompress_brotli b) (codec.decompress_gzip b))

unfoldable pub decode_payload : Codec → Base64 → Bytes → Outcome LegacyError Bytes
decode_payload codec base64 wire = decode_wire codec base64 (base64.decode_string wire)

unfoldable pub callback_wire_string : Codec → Base64 → Bytes → Outcome LegacyError Bytes
callback_wire_string codec base64 wire =
    decode_payload codec base64 wire >>= λ raw. ok (base64.encode_to_string raw)

-- `strings.TrimPrefix(version, "v")`
abbrev without_v : Bytes → Bytes
without_v [] = []
without_v (b ∷ s) = if b == 118 then s else b ∷ s

-- the text up to the first `-` or `+`
unfoldable pub before_suffix : Bytes → Bytes
before_suffix [] = []
before_suffix (b ∷ s) = let rest = before_suffix s in if b == 45 || b == 43 then [] else b ∷ rest

abbrev version_part : Option ℤ → Option ℕ
version_part none = none
version_part (some (negsuc n)) = none
version_part (some (pos n)) = some n

abbrev with_part : Option ℕ → Option (List ℕ) → Option (List ℕ)
with_part none _ = none
with_part (some n) none = none
with_part (some n) (some ns) = some (n ∷ ns)

unfoldable pub version_parts : List Bytes → Option (List ℕ)
version_parts [] = some []
version_parts (s ∷ ss) = with_part (version_part (atoi s)) (version_parts ss)

-- at most three numbers, and 0 for those that are missing
abbrev padded : Option (List ℕ) → Option (ℕ × ℕ × ℕ)
padded none = none
padded (some []) = none
padded (some (a ∷ [])) = some (a, 0, 0)
padded (some (a ∷ b ∷ [])) = some (a, b, 0)
padded (some (a ∷ b ∷ c ∷ [])) = some (a, b, c)
padded (some (a ∷ b ∷ c ∷ d ∷ rest)) = none

abbrev parse_trimmed_semver : Bytes → Option (ℕ × ℕ × ℕ)
parse_trimmed_semver [] = none
parse_trimmed_semver (b ∷ s) = padded (version_parts (split (before_suffix (b ∷ s)) 46))

unfoldable pub parse_semver : Bytes → Option (ℕ × ℕ × ℕ)
parse_semver version = parse_trimmed_semver (trim_space (without_v version))

abbrev from_1_3 : Option (ℕ × ℕ × ℕ) → Bool
from_1_3 none = true
from_1_3 (some (major, minor, patch)) =
    if ltb 1 major
    then true
    else if ltb major 1
    then false
    else if ltb 3 minor
    then true
    else if ltb minor 3
    then false
    else leb 0 patch

unfoldable pub should_use_compressed_outer : Bytes → Bool
should_use_compressed_outer version = from_1_3 (parse_semver version)

-- Handlers are numbers, `none` is nil.
pub record LegacyAdapter : Type 0 where
  pub is_client : Bool
  pub use_compressed_outer : Bool
  pub http_request_handler : Option ℕ
  pub http_response_handler : Option ℕ
  pub tcp_data_handlers : Dict ℕ ℕ
  pub handler_id_counter : ℕ

abbrev pub new_legacy_protocol_adapter : Bool → LegacyAdapter
new_legacy_protocol_adapter is_client = record {
  is_client = is_client;
  use_compressed_outer = true;
  http_request_handler = none;
  http_response_handler = none;
  tcp_data_handlers = [];
  handler_id_counter = 0;
}

unfoldable pub set_legacy_peer_version : Bytes → LegacyAdapter → LegacyAdapter
set_legacy_peer_version version a = record a {
  use_compressed_outer = should_use_compressed_outer version;
}

unfoldable pub on_http_request : ℕ → LegacyAdapter → LegacyAdapter
on_http_request h a = record a { http_request_handler = some h }

unfoldable pub on_http_response : ℕ → LegacyAdapter → LegacyAdapter
on_http_response h a = record a { http_response_handler = some h }

-- The number is what the function to unsubscribe has captured.
unfoldable pub on_tcp_data : ℕ → LegacyAdapter → LegacyAdapter × ℕ
on_tcp_data h a =
    let n = a.handler_id_counter in
    (
      record a { handler_id_counter = n + 1; tcp_data_handlers = Dict.put n h a.tcp_data_handlers },
      n,
    )

unfoldable pub unsubscribe_tcp_data : ℕ → LegacyAdapter → LegacyAdapter
unsubscribe_tcp_data n a = record a { tcp_data_handlers = Dict.remove n a.tcp_data_handlers }

unfoldable pub encode_request_data :
    Codec → Base64 → LegacyAdapter → Bytes → Outcome LegacyError Bytes
encode_request_data codec base64 a data_ =
    if a.use_compressed_outer
    then encode_outer codec base64 (base64.encode_to_string data_)
    else ok (base64.encode_to_string data_)

unfoldable pub encode_response_data :
    Codec → Base64 → LegacyAdapter → Bytes → Outcome LegacyError Bytes
encode_response_data codec base64 a data_ =
    if a.use_compressed_outer
    then encode_outer codec base64 (base64.encode_to_string data_)
    else ok (base64.encode_to_string data_)

pub data LegacyEvent : Type 0 where
  request : LegacyEvent
  response : LegacyEvent
  other : LegacyEvent

abbrev pub handler_of : LegacyEvent → LegacyAdapter → Option ℕ
handler_of request a = if a.is_client then a.http_request_handler else none
handler_of response a = if a.is_client then none else a.http_response_handler
handler_of other a = none

abbrev call_decoded : ℕ → Bytes → Outcome LegacyError Bytes → Option (ℕ × Bytes × Bytes)
call_decoded h id (err e) = none
call_decoded h id panic = none
call_decoded h id (ok decoded) = some (h, id, decoded)

abbrev handle_texts :
    Codec → Base64 → Option ℕ → Option (Bytes × Bytes) → Option (ℕ × Bytes × Bytes)
handle_texts codec base64 none payload = none
handle_texts codec base64 (some h) none = none
handle_texts codec base64 (some h) (some ([], text)) = none
handle_texts codec base64 (some h) (some (b ∷ id, [])) = none
handle_texts codec base64 (some h) (some (b ∷ id, c ∷ text)) =
    call_decoded h (b ∷ id) (decode_payload codec base64 (c ∷ text))

-- The call of a handler, if there is one; no error comes back.
unfoldable pub handle_event :
    Codec
    → Base64
    → LegacyEvent
    → Option (Bytes × Bytes)
    → LegacyAdapter
    → Option (ℕ × Bytes × Bytes)
handle_event codec base64 event payload a = handle_texts codec base64 (handler_of event a) payload
