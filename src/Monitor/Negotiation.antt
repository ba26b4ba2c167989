-- ===== src/Monitor/Negotiation.antt =====
-- internal/server/channels/monitor/helpers.go: what the server offers and what it agrees on with a
-- client. The client's flags are a number from JSON, which is not negative here.
pub mod Limits
use Prim.Native.Nat.{bit_and}
use inlets.Common.{
  ℕ, ◌*◌, List, [], ◌∷◌, ◌++◌, Bool, true, false, ◌||◌, Option, none, some, Bytes, Outcome, ok, err,
  panic, ◌>>=◌, codes, ◌==◌, if◌then◌else◌,
}
use inlets.Common.Int.{ℤ, pos, ltb_ℤ, eqb_ℤ}
use inlets.Common.Text.{same_text, trim_space, is_blank, decimal}
use inlets.Protocol.{Capabilities, Features, CompressionCaps, ChunkSize, has_bit}
use inlets.Protocol.Capability
use inlets.Client.{Authentication}

abbrev pub brotli : Bytes
brotli = codes "brotli"

abbrev pub gzip : Bytes
gzip = codes "gzip"

abbrev pub server_chunk : ChunkSize
server_chunk = record {
  min_size = pos 1024;
  max_size = pos (1024 * 1024);
  default_size = pos (64 * 1024);
}

abbrev pub server_window : ℤ
server_window = pos (1024 * 1024)

-- the ten flags of the server
abbrev pub server_capabilities : Capabilities
server_capabilities = record {
  flags = 1023;
  version = codes "2.0.0";
  features = some (record {
    compression = some (record { algorithms = brotli ∷ gzip ∷ []; preferred = [] });
    chunk_size = some server_chunk;
    window_size = some server_window;
  });
}

abbrev pub contains : Bytes → List Bytes → Bool
contains a [] = false
contains a (b ∷ bs) = same_text a b || contains a bs

-- the client's algorithms that the server has, in the client's order
unfoldable pub common_algorithms : List Bytes → List Bytes
common_algorithms [] = []
common_algorithms (a ∷ as_) =
    let rest = common_algorithms as_ in if contains a (brotli ∷ gzip ∷ []) then a ∷ rest else rest

unfoldable pub with_preferred : List Bytes → Option CompressionCaps
with_preferred [] = none
with_preferred (a ∷ as_) =
    some
      (record { algorithms = a ∷ as_; preferred = if contains brotli (a ∷ as_) then brotli else a })

abbrev pub algorithms_of : Option Features → List Bytes
algorithms_of none = []
algorithms_of (some f) = elim f.compression [ none ↦ [] | some c ↦ c.algorithms ]

unfoldable pub negotiate_compression : ℕ → Option Features → Option CompressionCaps
negotiate_compression flags features =
    if has_bit Capability.compression flags
    then with_preferred (common_algorithms (algorithms_of features))
    else none

abbrev pub larger : ℤ → ℤ → ℤ
larger a b = if ltb_ℤ a b then b else a

abbrev pub smaller : ℤ → ℤ → ℤ
smaller a b = if ltb_ℤ b a then b else a

unfoldable pub chunk_of : Option ChunkSize → ChunkSize
chunk_of none = server_chunk
chunk_of (some c) = record {
  min_size = larger c.min_size server_chunk.min_size;
  max_size = smaller c.max_size server_chunk.max_size;
  default_size = smaller c.default_size server_chunk.default_size;
}

-- `clientCapabilities.Features.ChunkSize` of nil features panics
unfoldable pub negotiate_chunk : ℕ → Option Features → Outcome ⊥ (Option ChunkSize)
negotiate_chunk flags none = if has_bit Capability.streaming flags then panic else ok none
negotiate_chunk flags (some f) =
    if has_bit Capability.streaming flags then ok (some (chunk_of f.chunk_size)) else ok none

abbrev pub window_of : Option Features → ℤ
window_of none = pos 0
window_of (some f) = elim f.window_size [ none ↦ pos 0 | some w ↦ w ]

unfoldable pub agreed_window : ℤ → ℤ
agreed_window w =
    let size = if ltb_ℤ server_window w || eqb_ℤ w (pos 0) then server_window else w in
    if eqb_ℤ size (pos 0) then pos (1024 * 1024) else size

unfoldable pub negotiate_window : ℕ → Option Features → Option ℤ
negotiate_window flags features =
    if has_bit Capability.flow_control flags
    then some (agreed_window (window_of features))
    else none

unfoldable pub agree : ℕ → Option Features → Outcome ⊥ (Option Capabilities)
agree flags features = do
  chunk ← negotiate_chunk flags features
  ok (
      some (record {
        flags = flags;
        version = server_capabilities.version;
        features = some (record {
          compression = negotiate_compression flags features;
          chunk_size = chunk;
          window_size = negotiate_window flags features;
        });
      }))

unfoldable pub negotiate_capabilities : Option Capabilities → Outcome ⊥ (Option Capabilities)
negotiate_capabilities none = ok none
negotiate_capabilities (some caps) =
    let flags = bit_and caps.flags server_capabilities.flags in
    if caps.flags == 0 then ok none else if flags == 0 then ok none else agree flags caps.features

unfoldable pub is_legacy_client : Authentication → Bool
is_legacy_client auth = elim auth.capabilities [ none ↦ true | some caps ↦ caps.flags == 0 ]

-- CreateWebSocketOptions, as far as the address of a tunnel needs it
pub record UrlOptions : Type 0 where
  pub domain : Bytes
  pub secure : Bool
  pub port : ℕ

unfoldable pub url_at : Bytes → Bytes → UrlOptions → Bytes
url_at sub_domain [] options = []
url_at sub_domain (b ∷ domain) options =
    let name = sub_domain ++ (codes "." ++ (b ∷ domain)) in
    if options.secure
    then codes "https://" ++ name
    else codes "http://" ++ (name ++ (codes ":" ++ decimal options.port))

unfoldable pub get_server_url_by_sub_domain : Bytes → UrlOptions → Bytes → Bytes
get_server_url_by_sub_domain [] options request_host = []
get_server_url_by_sub_domain (b ∷ sub_domain) options request_host =
    if is_blank (trim_space options.domain)
    then url_at (b ∷ sub_domain) (trim_space request_host) options
    else url_at (b ∷ sub_domain) (trim_space options.domain) options
