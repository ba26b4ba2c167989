-- ===== src/Monitor/Auth.antt =====
-- internal/server/channels/monitor/auth.go: handleAuthenticate and handleDisconnect, with the tables
-- of the server that they change. Messages, logs, notifications and events are left out, and so is
-- the callback that handleAuthenticate gives the adapter. `A` is the type of protocol adapters and
-- `T` that of the token function that a tunnel keeps.
pub mod Sound
pub mod Tables
pub mod Lifetime
use inlets.Common.{
  ℕ, suc, ◌++◌, List, [], ◌∷◌, Bool, true, false, ◌&&◌, ◌||◌, not, Option, none, some, Bytes,
  bytes_key, codes, take, if◌then◌else◌, Outcome, ok, err, panic, ◌>>=◌,
}
use inlets.Common.Int.{ℤ, pos, negsuc}
use inlets.Common.Text.{trim_space, same_text, is_blank, decimal}
use inlets.Client.{Authentication, TunnelSpec, HttpTunnelAuth}
use inlets.Client.TunnelSpecs.{http, tcp}
use inlets.Protocol.{Capabilities}
use inlets.Registry.Domains.{DomainContainer, ConnId}
use inlets.Registry.Domains
use inlets.Registry.Tunnels.{TunnelContainer, Value, other_value, bool_value, create, TunnelError}
use inlets.Registry.Tunnels
use inlets.Stats.{TrafficStatsData, Clock, set_start_time, set_end_time}
use inlets.Monitor.Negotiation.{negotiate_capabilities, UrlOptions, get_server_url_by_sub_domain}
use inlets.Monitor.Policy.{
  ModernReason, requires_modern_client_for_advanced_features, resolve_matched_http_auths,
  merge_http_ingress_edge_auth, should_apply_public_monitor_session_ttl,
}

-- What the token function returns: the kind of client, its secret and the tunnels of its
-- configuration.
pub record TokenResponse : Type 0 where
  pub auth_type : Bytes
  pub token : Bytes
  pub tunnels : List TunnelSpec

-- The server's settings and what it calls: the token function, by kind, client, tunnel type and
-- whether it is a child session; the library's HMAC of a text under a key; the making of an adapter.
pub record Settings (T A : Type 0) : Type 0 where
  pub version : Bytes
  pub url : UrlOptions
  pub token : Bytes → Bytes → Bytes → Bool → Option TokenResponse
  pub hmac : Bytes → Bytes → Bytes
  pub adapter : Option Capabilities → A
  pub get_token : T

-- The websocket, its host, and the identifiers that are made for this client.
pub record Incoming : Type 0 where
  pub socket : ConnId
  pub request_host : Bytes
  pub client_uuid : Bytes
  pub container_uuid : Bytes
  pub domain_uuid : Bytes

pub record Server (T A : Type 0) : Type 0 where
  pub tunnels : TunnelContainer T A
  pub domains : DomainContainer A HttpTunnelAuth
  pub stats : TrafficStatsData

-- What is kept for a client that is in: `offered` are the tunnels that it is told to start.
pub record Session : Type 0 where
  pub client_id : Bytes
  pub container_id : Bytes
  pub sub_domain : Bytes
  pub url : Bytes
  pub negotiated : Option Capabilities
  pub offered : List TunnelSpec
  pub public_limit : Bool

pub data AuthError : Type 0 where
  invalid_client : AuthError
  client_too_old : ModernReason → AuthError
  sub_domain_not_allowed : AuthError
  invalid_token : AuthError
  invalid_signature : AuthError
  sub_domain_used : AuthError
  unknown_type : AuthError

abbrev pub or_text : Bytes → Bytes → Bytes
or_text [] default = default
or_text (b ∷ s) default = b ∷ s

unfoldable pub client_name : Authentication → Incoming → Bytes
client_name auth incoming =
    or_text auth.client_id (codes "anonymous-" ++ take 8 incoming.client_uuid)

-- strconv.FormatInt in base 10
unfoldable pub format_int : ℤ → Bytes
format_int (pos n) = decimal n
format_int (negsuc n) = codes "-" ++ decimal (suc n)

abbrev pub is_new : Option Capabilities → Bool
is_new none = false
is_new (some c) = true

module _ {A : Type 0} where
  -- UnbindWS, where there is a sub-domain
  unfoldable pub unbound :
      DomainContainer A HttpTunnelAuth → Bytes → DomainContainer A HttpTunnelAuth
  unbound c [] = c
  unbound c (b ∷ sub_domain) = Domains.unbind_ws c (b ∷ sub_domain)
  -- the tables, and the listener that is closed

module _ {T A : Type 0} where
  -- an error of Set is logged only
  abbrev or_same :
      TunnelContainer T A → Outcome TunnelError (TunnelContainer T A) → TunnelContainer T A
  or_same c (ok c') = c'
  or_same c (err e) = c
  or_same c panic = c

  -- Create, and Set of the adapter and the protocol
  unfoldable pub add_tunnel :
      TunnelContainer T A
      → Bytes
      → T
      → Option ConnId
      → Authentication
      → A
      → Bool
      → TunnelContainer T A
  add_tunnel c id token ws auth adapter use_new =
      let c1 = create c id token ws auth in
      let c2 = or_same c1 (Tunnels.set c1 id (codes "adapter") (other_value adapter)) in
      or_same c2 (Tunnels.set c2 id (codes "useNewProtocol") (bool_value use_new))

  unfoldable pub with_tunnel :
      Settings T A → Server T A → Incoming → Authentication → Option Capabilities → Server T A
  with_tunnel settings server incoming auth negotiated = record server {
    tunnels =
        add_tunnel server.tunnels incoming.container_uuid settings.get_token (some incoming.socket)
          auth (settings.adapter negotiated) (is_new negotiated);
  }

  unfoldable pub bind_domain :
      Settings T A
      → Server T A
      → Incoming
      → Authentication
      → Option Capabilities
      → List HttpTunnelAuth
      → Server T A × Bytes
  bind_domain settings server incoming auth negotiated auths =
      let (domains, name) =
        Domains.bind_ws_with_metadata incoming.domain_uuid server.domains (some incoming.socket)
          auth.sub_domain auth.client_id (some (settings.adapter negotiated)) (is_new negotiated)
          auths incoming.container_uuid in
      (record server { domains = domains }, name)

  -- a sub-domain that is asked for and taken
  unfoldable pub is_used : Server T A → Authentication → Bool
  is_used server auth = not (is_blank auth.sub_domain) && Domains.has server.domains auth.sub_domain

  -- the branches on the tunnel's type; the text is the sub-domain
  unfoldable pub open_tunnel :
      Settings T A
      → Server T A
      → Incoming
      → Authentication
      → Option Capabilities
      → List HttpTunnelAuth
      → Server T A × Outcome AuthError Bytes
  open_tunnel settings server incoming auth negotiated auths =
      let server' = with_tunnel settings server incoming auth negotiated in
      let (bound, name) = bind_domain settings server' incoming auth negotiated auths in
      if same_text auth.type tcp
      then (server', ok [])
      else if same_text auth.type http
      then if is_used server' auth then (server', err sub_domain_used) else (bound, ok name)
      else if is_blank (trim_space auth.type)
      then (server, ok [])
      else (server, err unknown_type)

  unfoldable pub session_of :
      Settings T A
      → Incoming
      → Authentication
      → TokenResponse
      → Option Capabilities
      → Bytes
      → Session
  session_of settings incoming auth response negotiated sub_domain = record {
    client_id = auth.client_id;
    container_id = incoming.container_uuid;
    sub_domain = sub_domain;
    url = get_server_url_by_sub_domain sub_domain settings.url incoming.request_host;
    negotiated = negotiated;
    offered =
        if same_text auth.auth_type (codes "credentials") && not auth.opaque_child
        then response.tunnels
        else [];
    public_limit = should_apply_public_monitor_session_ttl auth;
  }

  -- what follows the branches on the type
  unfoldable pub enter :
      Settings T A
      → Incoming
      → Authentication
      → TokenResponse
      → Option Capabilities
      → Clock
      → Server T A × Outcome AuthError Bytes
      → Server T A × Outcome AuthError Session
  enter settings incoming auth response negotiated clock (server, err e) = (server, err e)
  enter settings incoming auth response negotiated clock (server, panic) = (server, panic)
  enter settings incoming auth response negotiated clock (server, ok sub_domain) = (
    record server { stats = set_start_time server.stats auth.client_id clock },
    ok (session_of settings incoming auth response negotiated sub_domain),
  )

  -- from the negotiation on, which may panic
  unfoldable pub admit :
      Settings T A
      → Server T A
      → Incoming
      → Authentication
      → TokenResponse
      → Clock
      → Outcome ⊥ (Option Capabilities)
      → Server T A × Outcome AuthError Session
  admit settings server incoming auth response clock (err e) = (server, panic)
  admit settings server incoming auth response clock panic = (server, panic)
  admit settings server incoming auth response clock (ok negotiated) =
      enter settings incoming auth response negotiated clock (
        open_tunnel settings server incoming auth negotiated
          (merge_http_ingress_edge_auth (resolve_matched_http_auths auth response.tunnels) auth))

  -- the checks of the secret
  unfoldable pub verify :
      Settings T A
      → Server T A
      → Incoming
      → Authentication
      → TokenResponse
      → Clock
      → Server T A × Outcome AuthError Session
  verify settings server incoming auth response clock =
      let named = record auth { client_id = client_name auth incoming } in
      let admitted =
        admit settings server incoming named response clock
          (negotiate_capabilities auth.capabilities) in
      if same_text response.auth_type (codes "public") && not (is_blank auth.sub_domain)
      then (server, err sub_domain_not_allowed)
      else if is_blank response.token
      then (server, err invalid_token)
      else if not
          (same_text (settings.hmac (format_int auth.timestamp) response.token) auth.signature)
      then (server, err invalid_signature)
      else admitted

  -- an old client is refused
  unfoldable pub gate :
      Settings T A
      → Server T A
      → Incoming
      → Authentication
      → TokenResponse
      → Clock
      → Option ModernReason
      → Server T A × Outcome AuthError Session
  gate settings server incoming auth response clock (some reason) =
      (server, err (client_too_old reason))
  gate settings server incoming auth response clock none =
      verify settings server incoming auth response clock

  unfoldable pub checked :
      Settings T A
      → Server T A
      → Incoming
      → Authentication
      → Clock
      → Option TokenResponse
      → Server T A × Outcome AuthError Session
  checked settings server incoming auth clock none = (server, err invalid_client)
  checked settings server incoming auth clock (some response) =
      gate settings server incoming auth response clock
        (requires_modern_client_for_advanced_features auth.version auth response.tunnels)

  unfoldable pub handle_authenticate :
      Settings T A
      → Server T A
      → Incoming
      → Authentication
      → Clock
      → Server T A × Outcome AuthError Session
  handle_authenticate settings server incoming auth clock =
      checked settings server incoming auth clock (
        settings.token (or_text auth.auth_type (codes "token")) auth.client_id auth.type
          auth.opaque_child)

  unfoldable pub handle_disconnect : Server T A → Session → Clock → Server T A × Option ℕ
  handle_disconnect server session clock =
      let (tunnels, listener) = Tunnels.destroy server.tunnels session.container_id in
      (
        record {
          tunnels = tunnels;
          domains = unbound server.domains session.sub_domain;
          stats = set_end_time server.stats session.client_id clock;
        },
        listener,
      )
