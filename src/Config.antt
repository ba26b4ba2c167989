-- ===== src/Config.antt =====
-- internal/server/config: validate.go, token.go and BuildBandwidthLimits of reload.go. Parameters are
-- time.ParseDuration, of which only the failure matters here, and ResolveAdmin of admin.go.
-- Notifications and versions of the clients' configurations are left out.
pub mod Secrets
mod Tests
use inlets.Common.{
  ℕ, zero, suc, List, [], ◌∷◌, ◌++◌, Bool, true, false, ◌&&◌, ◌||◌, not, Option, none, some, Bytes,
  bytes_key, codes, if◌then◌else◌, Outcome, ok, err,
}
use inlets.Common.Int.{ℤ, pos, ltb_ℤ}
use inlets.Common.Dict
use inlets.Common.Dict.{Dict}
use inlets.Common.Text.{trim_space, same_text, equal_fold, is_blank}
use inlets.Client.{TunnelSpec, HttpIncomingAuthRule, HttpTunnelAuth}
use inlets.Client.TunnelSpecs.{http, tcp}
use inlets.Limiter.{BandwidthLimit, ClientBandwidthLimits}
use inlets.Monitor.Policy.{is_empty}
use inlets.Monitor.Auth.{TokenResponse}

pub record ClientConfig : Type 0 where
  pub client_id : Bytes
  pub client_secret : Bytes
  pub bandwidth_limit : Option BandwidthLimit
  pub tunnels : List TunnelSpec

pub record PublicHttpNoAuthConfig : Type 0 where
  pub timeout : Bytes
  pub warn_lead : Bytes

pub record BandwidthLimitsConfig : Type 0 where
  pub global : Option BandwidthLimit
  pub clients : Option (Dict Bytes (Option BandwidthLimit))

-- `admin_enabled` is Admin.Enabled, false where Admin is nil.
pub record FileConfig : Type 0 where
  pub domain : Bytes
  pub port : ℤ
  pub tcp_port : ℤ
  pub token : Bytes
  pub clients : List ClientConfig
  pub bandwidth_limits : Option BandwidthLimitsConfig
  pub public_http_no_auth : Option PublicHttpNoAuthConfig
  pub admin_enabled : Bool

-- The problems, with the indices that their paths show.
pub data ValidationError : Type 0 where
  config_is_nil : ValidationError
  domain_required : ValidationError
  port_out_of_range : ValidationError
  tcp_port_out_of_range : ValidationError
  clients_required : ValidationError
  client_id_required : ℕ → ValidationError
  client_id_duplicates : ℕ → ℕ → ValidationError
  client_secret_required : ℕ → ValidationError
  tunnel_type_invalid : ℕ → ℕ → ValidationError
  upstream_required : ℕ → ℕ → ValidationError
  timeout_invalid : ValidationError
  warn_lead_invalid : ValidationError
  admin_invalid : ValidationError

abbrev pub problem_if : Bool → ValidationError → List ValidationError
problem_if true e = e ∷ []
problem_if false e = []

unfoldable pub validate_tunnels : ℕ → ℕ → List TunnelSpec → List ValidationError
validate_tunnels i j [] = []
validate_tunnels i j (t ∷ ts) =
    problem_if (not (same_text t.type http || same_text t.type tcp)) (tunnel_type_invalid i j)
    ++ (problem_if (is_blank (trim_space t.upstream)) (upstream_required i j)
        ++ validate_tunnels i (suc j) ts)

abbrev pub duplicate_of : Option ℕ → ℕ → List ValidationError
duplicate_of none i = []
duplicate_of (some prev) i = client_id_duplicates i prev ∷ []

-- `seen` are the identifiers before, with their indices
unfoldable pub validate_client_id : Dict Bytes ℕ → ℕ → Bytes → List ValidationError
validate_client_id seen i id =
    if is_blank (trim_space id)
    then client_id_required i ∷ []
    else duplicate_of (Dict.get id seen) i

unfoldable pub seen_after : Dict Bytes ℕ → ℕ → Bytes → Dict Bytes ℕ
seen_after seen i id = if is_blank (trim_space id) then seen else Dict.put id i seen

unfoldable pub validate_clients : Dict Bytes ℕ → ℕ → List ClientConfig → List ValidationError
validate_clients seen i [] = []
validate_clients seen i (c ∷ cs) =
    validate_client_id seen i c.client_id
    ++ (problem_if (is_blank (trim_space c.client_secret)) (client_secret_required i)
        ++ (validate_tunnels i 0 c.tunnels
            ++ validate_clients (seen_after seen i c.client_id) (suc i) cs))

abbrev pub out_of_range : ℤ → Bool
out_of_range port = ltb_ℤ port (pos 0) || ltb_ℤ (pos 65535) port

unfoldable pub validate_timing :
    (Bytes → Bool) → Option PublicHttpNoAuthConfig → List ValidationError
validate_timing parses none = []
validate_timing parses (some p) =
    problem_if (not (is_blank (trim_space p.timeout)) && not (parses (trim_space p.timeout)))
      timeout_invalid
    ++ problem_if (not (is_blank (trim_space p.warn_lead)) && not (parses (trim_space p.warn_lead)))
        warn_lead_invalid

-- `parses` says that time.ParseDuration returns no error, `resolves` that ResolveAdmin does not
unfoldable pub validate_with_details :
    (Bytes → Bool) → (FileConfig → Bool) → Option FileConfig → List ValidationError
validate_with_details parses resolves none = config_is_nil ∷ []
validate_with_details parses resolves (some cfg) =
    problem_if (is_blank (trim_space cfg.domain)) domain_required
    ++ (problem_if (out_of_range cfg.port) port_out_of_range
        ++ (problem_if (out_of_range cfg.tcp_port) tcp_port_out_of_range
            ++ (problem_if (is_empty cfg.clients) clients_required
                ++ (validate_clients [] 0 cfg.clients
                    ++ (validate_timing parses cfg.public_http_no_auth
                        ++ problem_if (cfg.admin_enabled && not (resolves cfg)) admin_invalid)))))

-- Validate: whether there is no error
unfoldable pub validate : (Bytes → Bool) → (FileConfig → Bool) → Option FileConfig → Bool
validate parses resolves cfg = is_empty (validate_with_details parses resolves cfg)

pub data TokenError : Type 0 where
  public_only_for_http : TokenError
  config_required : TokenError
  client_not_found : Bytes → TokenError
  token_required : TokenError

-- the first client of this identifier
unfoldable pub find_client : Bytes → List ClientConfig → Option ClientConfig
find_client id [] = none
find_client id (c ∷ cs) =
    let rest = find_client id cs in if same_text c.client_id id then some c else rest

abbrev pub has_users : Option HttpIncomingAuthRule → Bool
has_users none = false
has_users (some rule) = rule.enable && not (is_empty rule.users)

unfoldable pub auth_tunnels : List TunnelSpec → List TunnelSpec
auth_tunnels [] = []
auth_tunnels (t ∷ ts) =
    let rest = auth_tunnels ts in
    if equal_fold (trim_space t.type) http && (has_users t.auth || not (is_empty t.auths))
    then t ∷ rest
    else rest

unfoldable pub collect_http_auth_tunnels : List ClientConfig → List TunnelSpec
collect_http_auth_tunnels [] = []
collect_http_auth_tunnels (c ∷ cs) = auth_tunnels c.tunnels ++ collect_http_auth_tunnels cs

unfoldable pub credentials_response : Option ClientConfig → Bytes → Outcome TokenError TokenResponse
credentials_response none id = err (client_not_found id)
credentials_response (some c) id =
    ok (record { auth_type = codes "credentials"; token = c.client_secret; tunnels = c.tunnels })

-- The function that CreateGetToken returns, called with options.
unfoldable pub get_token :
    Option FileConfig → Bytes → Bytes → Bytes → Outcome TokenError TokenResponse
get_token config auth_type client_id type =
    if same_text auth_type (codes "public")
    then if not (same_text type http)
      then err public_only_for_http
      else ok (record { auth_type = codes "public"; token = codes "public"; tunnels = [] })
    else elim config [
      | none ↦ err config_required
      | some cfg ↦
          if same_text auth_type (codes "credentials")
          then credentials_response (find_client client_id cfg.clients) client_id
          else if is_blank cfg.token
          then err token_required
          else ok (record {
            auth_type = codes "token";
            token = cfg.token;
            tunnels = collect_http_auth_tunnels cfg.clients;
          })
    ]

abbrev pub limits_or_empty :
    Option (Dict Bytes (Option BandwidthLimit)) → Dict Bytes (Option BandwidthLimit)
limits_or_empty none = []
limits_or_empty (some m) = m

abbrev pub configured : Option BandwidthLimitsConfig → ClientBandwidthLimits
configured none = record { by_client_id = some []; global = none }
configured (some b) = record { by_client_id = some (limits_or_empty b.clients); global = b.global }

-- the limit of each client that has one replaces the entry of its identifier
unfoldable pub with_clients :
    Dict Bytes (Option BandwidthLimit) → List ClientConfig → Dict Bytes (Option BandwidthLimit)
with_clients m [] = m
with_clients m (c ∷ cs) = elim c.bandwidth_limit [
  | none ↦ with_clients m cs
  | some limit ↦ with_clients (Dict.put c.client_id (some limit) m) cs
]

-- limits that limit nothing are nil
unfoldable pub or_nil :
    Option BandwidthLimit → Dict Bytes (Option BandwidthLimit) → Option ClientBandwidthLimits
or_nil none [] = none
or_nil none (e ∷ m) = some (record { by_client_id = some (e ∷ m); global = none })
or_nil (some limit) m = some (record { by_client_id = some m; global = some limit })

unfoldable pub build_bandwidth_limits : Option FileConfig → Option ClientBandwidthLimits
build_bandwidth_limits none = none
build_bandwidth_limits (some cfg) =
    let start = configured cfg.bandwidth_limits in
    or_nil start.global (with_clients (limits_or_empty start.by_client_id) cfg.clients)
