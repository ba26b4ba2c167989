-- ===== src/Monitor/Policy.antt =====
-- internal/server/channels/monitor/auth.go, the rules that handleAuthenticate applies, and the
-- comparison of versions in internal/server/utils/utils.go.
use inlets.Common.{
  ℕ, zero, suc, ◌*◌, ◌^◌, List, [], ◌∷◌, Bool, true, false, ◌&&◌, ◌||◌, not, Option, none, some,
  Bytes, codes, ltb, ◌==◌, if◌then◌else◌,
}
use inlets.Common.Int.{ℤ, pos, negsuc, half, leb_ℤ}
use inlets.Common.Text.{trim_space, to_lower, same_text, equal_fold, is_blank}
use inlets.Client.{Authentication, TunnelSpec, HttpTunnelAuth, HttpIncomingAuthRule}
use inlets.Client.TunnelSpecs.{http, match_tunnel_spec_index}

-- Go's order of strings
unfoldable pub less : Bytes → Bytes → Bool
less [] [] = false
less [] (b ∷ t) = true
less (a ∷ s) [] = false
less (a ∷ s) (b ∷ t) = ltb a b || (a == b && less s t)

unfoldable pub compare_version : Bytes → Bytes → ℤ
compare_version v w = if less v w then negsuc 0 else if less w v then pos 1 else pos 0

unfoldable pub is_version_greater_or_equal : Bytes → Bytes → Bool
is_version_greater_or_equal v w = leb_ℤ (pos 0) (compare_version v w)

abbrev pub is_empty : {A : Type 0} → List A → Bool
is_empty [] = true
is_empty (x ∷ xs) = false

unfoldable pub ingress_declares_basic : Authentication → Bool
ingress_declares_basic auth = elim auth.http_ingress_basic [
  | none ↦ false
  | some b ↦
      equal_fold (trim_space b.type) (codes "basic") && not (is_blank (trim_space b.username))
]

-- the client's own policy for the public address
unfoldable pub declared_basic : Authentication → List HttpTunnelAuth
declared_basic auth = elim auth.http_ingress_basic [
  | none ↦ []
  | some b ↦
      record { type = codes "basic"; username = b.username; password = b.password; token = [] } ∷ []
]

unfoldable pub merge_http_ingress_edge_auth :
    List HttpTunnelAuth → Authentication → List HttpTunnelAuth
merge_http_ingress_edge_auth [] auth =
    if ingress_declares_basic auth then declared_basic auth else []
merge_http_ingress_edge_auth (a ∷ matched) auth = a ∷ matched

unfoldable pub should_apply_public_monitor_session_ttl : Authentication → Bool
should_apply_public_monitor_session_ttl auth =
    let at = to_lower (trim_space auth.auth_type) in
    not (same_text at (codes "credentials")) && not (same_text at (codes "token"))

abbrev pub seconds : ℕ → ℤ
seconds n = pos (n * 10 ^ 9)

abbrev pub or_else : ℤ → ℤ → ℤ
or_else d default = if leb_ℤ d (pos 0) then default else d

-- the lifetime and how long before its end the client is warned, in nanoseconds
unfoldable pub resolve_public_monitor_session_ttl : ℤ → ℤ → ℤ × ℤ
resolve_public_monitor_session_ttl ttl warn_lead =
    let ttl' = or_else ttl (seconds 600) in
    let lead = or_else warn_lead (seconds 120) in
    let lead' = if leb_ℤ ttl' lead then half ttl' else lead in (ttl', or_else lead' (seconds 1))

unfoldable pub users_of : Option HttpIncomingAuthRule → List HttpTunnelAuth → List HttpTunnelAuth
users_of none auths = auths
users_of (some rule) auths = if rule.enable then rule.users else []

-- an empty list is nil
unfoldable pub enabled_http_auth_users : TunnelSpec → List HttpTunnelAuth
enabled_http_auth_users spec = users_of spec.auth spec.auths

abbrev pub is_http : TunnelSpec → Bool
is_http spec = equal_fold (trim_space spec.type) http

-- the HTTP tunnel with this sub-domain
unfoldable pub by_sub_domain : Bytes → List TunnelSpec → Option TunnelSpec
by_sub_domain sub [] = none
by_sub_domain sub (spec ∷ specs) =
    let rest = by_sub_domain sub specs in
    if is_http spec && same_text (trim_space spec.sub_domain) sub then some spec else rest

-- the HTTP tunnels that have users
unfoldable pub with_users : List TunnelSpec → List TunnelSpec
with_users [] = []
with_users (spec ∷ specs) =
    let rest = with_users specs in
    if is_http spec && not (is_empty (enabled_http_auth_users spec)) then spec ∷ rest else rest

-- the users of the one HTTP tunnel that has any
unfoldable pub only_users : List TunnelSpec → List HttpTunnelAuth
only_users [] = []
only_users (spec ∷ []) = enabled_http_auth_users spec
only_users (spec ∷ other ∷ specs) = []

unfoldable pub fall_back : Authentication → List TunnelSpec → List HttpTunnelAuth
fall_back auth tunnels =
    let last = only_users (with_users tunnels) in
    if equal_fold (trim_space auth.type) http && not (is_blank (trim_space auth.sub_domain))
    then (elim (by_sub_domain (trim_space auth.sub_domain) tunnels) [
      | some spec ↦ enabled_http_auth_users spec
      | none ↦ last
    ])
    else last

abbrev pub nth : List TunnelSpec → ℕ → Option TunnelSpec
nth [] i = none
nth (x ∷ xs) zero = some x
nth (x ∷ xs) (suc i) = nth xs i

-- the users of the tunnel at an index, if it is one
unfoldable pub users_at : Option TunnelSpec → List HttpTunnelAuth → List HttpTunnelAuth
users_at none other = other
users_at (some spec) other = enabled_http_auth_users spec

unfoldable pub resolve_at : ℤ → Authentication → List TunnelSpec → List HttpTunnelAuth
resolve_at (pos i) auth tunnels = users_at (nth tunnels i) (fall_back auth tunnels)
resolve_at (negsuc n) auth tunnels = fall_back auth tunnels

-- `tunnels` are those of the configuration, none where it is nil
unfoldable pub resolve_matched_http_auths : Authentication → List TunnelSpec → List HttpTunnelAuth
resolve_matched_http_auths auth [] = []
resolve_matched_http_auths auth (t ∷ ts) =
    resolve_at (match_tunnel_spec_index (some auth) (t ∷ ts)) auth (t ∷ ts)

pub data ModernReason : Type 0 where
  server_tunnels : ModernReason
  http_auth_policy : ModernReason
  http_ingress_auth : ModernReason

-- why an old client is refused
unfoldable pub requires_modern_client_for_advanced_features :
    Bytes → Authentication → List TunnelSpec → Option ModernReason
requires_modern_client_for_advanced_features version auth tunnels =
    if is_version_greater_or_equal version (codes "2.0.0")
    then none
    else if not (is_empty tunnels)
    then some server_tunnels
    else if equal_fold (trim_space auth.type) http
    then if not (is_empty (resolve_matched_http_auths auth tunnels))
      then some http_auth_policy
      else if ingress_declares_basic auth
      then some http_ingress_auth
      else none
    else none
