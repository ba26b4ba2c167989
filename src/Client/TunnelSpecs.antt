-- ===== src/Client/TunnelSpecs.antt =====
-- internal/client/tunnel_spec_auth.go and internal/client/child_options.go: how tunnel specs of the
-- server's configuration meet what a client asks for. A function that fails may have changed its
-- argument already, so both come back. `none` is a nil pointer.
pub mod Matching
pub mod Choice
use inlets.Common.{
  ℕ, suc, List, [], ◌∷◌, Bool, true, false, ◌&&◌, ◌||◌, not, Option, none, some, Bytes, codes, leb,
  if◌then◌else◌, Outcome, ok, err, panic, ◌>>=◌,
}
use inlets.Common.Int.{ℤ, pos, negsuc, eqb_ℤ}
use inlets.Common.Text.{trim_space, to_lower, same_text, equal_fold, is_blank}
use inlets.Client.{TunnelSpec, Authentication, Options}
use inlets.Client.Upstream.{UpstreamError, parse_upstream}

pub data SpecError : Type 0 where
  nil_argument : SpecError
  invalid_tunnel_type : Bytes → SpecError
  invalid_upstream : UpstreamError → SpecError
  remote_port_missing : Bytes → SpecError
  invalid_remote_port : Bytes → SpecError

abbrev pub http : Bytes
http = codes "http"

abbrev pub tcp : Bytes
tcp = codes "tcp"

abbrev pub spec_type : TunnelSpec → Bytes
spec_type spec = to_lower (trim_space spec.type)

abbrev pub is_tunnel_type : Bytes → Bool
is_tunnel_type t = same_text t http || same_text t tcp

abbrev pub in_port_range : ℤ → Bool
in_port_range (pos n) = leb 1 n && leb n 65535
in_port_range (negsuc n) = false

-- the first that is not blank, else the question mark
unfoldable pub first_label : List Bytes → Bytes
first_label [] = codes "?"
first_label (s ∷ ss) = if is_blank (trim_space s) then first_label ss else trim_space s

unfoldable pub tunnel_spec_label : Option TunnelSpec → Bytes
tunnel_spec_label none = codes "?"
tunnel_spec_label (some spec) = first_label (spec.name ∷ spec.upstream ∷ spec.type ∷ [])

unfoldable pub tunnel_port_from_options : Option Options → ℤ
tunnel_port_from_options none = pos 0
tunnel_port_from_options (some o) = if not (equal_fold o.type tcp) then pos 0 else o.tunnel_port

-- the fields that are not set are Go's zero values
unfoldable pub snapshot : Options → Authentication
snapshot o = record {
  version = [];
  type = o.type;
  port = o.upstream_port;
  sub_domain = o.sub_domain;
  tunnel_port = tunnel_port_from_options (some o);
  timestamp = pos 0;
  auth_type = [];
  client_id = [];
  signature = [];
  capabilities = none;
  opaque_child = false;
  http_ingress_basic = none;
}

unfoldable pub auth_snapshot_from_options : Option Options → Option Authentication
auth_snapshot_from_options none = none
auth_snapshot_from_options (some o) = some (snapshot o)

-- the sub-domain of a spec, where it names one
unfoldable pub named_or : Bytes → Bytes → Bytes
named_or sub_domain old = if is_blank (trim_space sub_domain) then old else trim_space sub_domain

-- the public port of a TCP tunnel: the spec's, else the one asked for
unfoldable pub choose_port : TunnelSpec → ℤ → Outcome SpecError ℤ
choose_port spec asked =
    if in_port_range spec.remote_port
    then ok spec.remote_port
    else if eqb_ℤ spec.remote_port (pos 0)
    then if in_port_range asked
      then ok asked
      else err (remote_port_missing (tunnel_spec_label (some spec)))
    else err (invalid_remote_port (tunnel_spec_label (some spec)))

abbrev set_tunnel_port :
    Authentication → Outcome SpecError ℤ → Authentication × Outcome SpecError (Unit {0})
set_tunnel_port auth (ok port) = (record auth { tunnel_port = port }, ok tt)
set_tunnel_port auth (err e) = (auth, err e)
set_tunnel_port auth panic = (auth, panic)

-- the fields of an HTTP tunnel
unfoldable pub http_fields : Authentication → TunnelSpec → ℕ → Authentication
http_fields auth spec port = record auth {
  type = spec_type spec;
  port = pos port;
  sub_domain = named_or spec.sub_domain auth.sub_domain;
  tunnel_port = pos 0;
}

-- the fields of a TCP tunnel before its public port
unfoldable pub tcp_fields : Authentication → TunnelSpec → ℕ → Authentication
tcp_fields auth spec port = record auth { type = spec_type spec; port = pos port; sub_domain = [] }

-- from `auth.Type = t` on
unfoldable pub apply_fields :
    Authentication → TunnelSpec → ℕ → Authentication × Outcome SpecError (Unit {0})
apply_fields auth spec port =
    if same_text (spec_type spec) http
    then (http_fields auth spec port, ok tt)
    else set_tunnel_port (tcp_fields auth spec port) (choose_port spec auth.tunnel_port)

-- what follows the call of ParseUpstream
unfoldable pub apply_at :
    Authentication
    → TunnelSpec
    → Outcome UpstreamError (Bytes × ℕ)
    → Authentication × Outcome SpecError (Unit {0})
apply_at auth spec (ok (host, port)) = apply_fields auth spec port
apply_at auth spec (err e) = (auth, err (invalid_upstream e))
apply_at auth spec panic = (auth, panic)

unfoldable pub apply_spec :
    Authentication → TunnelSpec → Authentication × Outcome SpecError (Unit {0})
apply_spec auth spec =
    if not (is_tunnel_type (spec_type spec))
    then (auth, err (invalid_tunnel_type spec.type))
    else apply_at auth spec (parse_upstream spec.upstream)

unfoldable pub apply_tunnel_spec_to_authentication :
    Option Authentication → Option TunnelSpec → Option Authentication × Outcome SpecError (Unit {0})
apply_tunnel_spec_to_authentication none spec = (none, err nil_argument)
apply_tunnel_spec_to_authentication (some auth) none = (some auth, err nil_argument)
apply_tunnel_spec_to_authentication (some auth) (some spec) =
    let (auth', r) = apply_spec auth spec in (some auth', r)

-- the tests behind that of the type
unfoldable pub same_tunnel : Authentication → TunnelSpec → ℕ → Bool
same_tunnel auth spec port =
    eqb_ℤ (pos port) auth.port
    && (if same_text (spec_type spec) http
        then is_blank (trim_space spec.sub_domain)
          || same_text (trim_space spec.sub_domain) (trim_space auth.sub_domain)
        else not (in_port_range spec.remote_port) || eqb_ℤ spec.remote_port auth.tunnel_port)

unfoldable pub matches : Authentication → TunnelSpec → Bool
matches auth spec =
    if not (same_text (spec_type spec) (to_lower (trim_space auth.type)))
    then false
    else if not (is_tunnel_type (spec_type spec))
    then false
    else elim (parse_upstream spec.upstream) [
      | ok (host, port) ↦ same_tunnel auth spec port
      | err e ↦ false
      | panic ↦ false
    ]

unfoldable pub tunnel_spec_matches_auth : Authentication → Option TunnelSpec → Bool
tunnel_spec_matches_auth auth none = false
tunnel_spec_matches_auth auth (some spec) = matches auth spec

-- the index of the first match, counted from `i`
unfoldable pub first_match : Authentication → List TunnelSpec → ℕ → ℤ
first_match auth [] i = negsuc 0
first_match auth (spec ∷ specs) i =
    let rest = first_match auth specs (suc i) in
    if tunnel_spec_matches_auth auth (some spec) then pos i else rest

unfoldable pub match_tunnel_spec_index : Option Authentication → List TunnelSpec → ℤ
match_tunnel_spec_index none specs = negsuc 0
match_tunnel_spec_index (some auth) specs = first_match auth specs 0

abbrev set_option_port : Options → Outcome SpecError ℤ → Options × Outcome SpecError (Unit {0})
set_option_port o (ok port) = (record o { tunnel_port = port }, ok tt)
set_option_port o (err e) = (o, err e)
set_option_port o panic = (o, panic)

-- the options of an HTTP tunnel
unfoldable pub http_options : Options → TunnelSpec → Bytes → ℕ → Options
http_options o spec host port = record o {
  type = spec_type spec;
  upstream_host = host;
  upstream_port = pos port;
  sub_domain = named_or spec.sub_domain o.sub_domain;
  tunnel_port = pos 0;
}

-- the options of a TCP tunnel before its public port
unfoldable pub tcp_options : Options → TunnelSpec → Bytes → ℕ → Options
tcp_options o spec host port = record o {
  type = spec_type spec;
  upstream_host = host;
  upstream_port = pos port;
  sub_domain = [];
}

-- from `o.Type = t` on
unfoldable pub sync_fields :
    Options → TunnelSpec → Bytes → ℕ → Options × Outcome SpecError (Unit {0})
sync_fields o spec host port =
    if same_text (spec_type spec) http
    then (http_options o spec host port, ok tt)
    else set_option_port (tcp_options o spec host port) (choose_port spec o.tunnel_port)

-- what follows the call of ParseUpstream
unfoldable pub sync_at :
    Options
    → TunnelSpec
    → Outcome UpstreamError (Bytes × ℕ)
    → Options × Outcome SpecError (Unit {0})
sync_at o spec (ok (host, port)) =
    if not (is_tunnel_type (spec_type spec))
    then (o, err (invalid_tunnel_type spec.type))
    else sync_fields o spec host port
sync_at o spec (err e) = (o, err (invalid_upstream e))
sync_at o spec panic = (o, panic)

unfoldable pub sync_spec : Options → TunnelSpec → Options × Outcome SpecError (Unit {0})
sync_spec o spec = sync_at o spec (parse_upstream spec.upstream)

unfoldable pub sync_opts_from_tunnel_spec :
    Option Options → Option TunnelSpec → Option Options × Outcome SpecError (Unit {0})
sync_opts_from_tunnel_spec none spec = (none, err nil_argument)
sync_opts_from_tunnel_spec (some o) none = (some o, err nil_argument)
sync_opts_from_tunnel_spec (some o) (some spec) = let (o', r) = sync_spec o spec in (some o', r)

-- the options of the new session, before the tunnel's type is looked at
unfoldable pub child_base : Options → TunnelSpec → Bytes → ℕ → Options
child_base base spec host port = record base {
  type = spec_type spec;
  upstream_host = host;
  upstream_port = pos port;
  sub_domain = trim_space spec.sub_domain;
  tunnel_port = spec.remote_port;
  opaque_child = true;
}

unfoldable pub child_fields : Options → TunnelSpec → Outcome SpecError Options
child_fields o spec =
    if same_text (spec_type spec) http
    then ok (record o { tunnel_port = pos 0 })
    else if in_port_range spec.remote_port
    then ok (record o { sub_domain = []; tunnel_port = spec.remote_port })
    else if eqb_ℤ spec.remote_port (pos 0)
    then err (remote_port_missing (tunnel_spec_label (some spec)))
    else err (invalid_remote_port (tunnel_spec_label (some spec)))

-- what follows the call of ParseUpstream
unfoldable pub child_at :
    Options → TunnelSpec → Outcome UpstreamError (Bytes × ℕ) → Outcome SpecError Options
child_at base spec (ok (host, port)) = child_fields (child_base base spec host port) spec
child_at base spec (err e) = err (invalid_upstream e)
child_at base spec panic = panic

unfoldable pub child_options : Options → TunnelSpec → Outcome SpecError Options
child_options base spec =
    if not (is_tunnel_type (spec_type spec))
    then err (invalid_tunnel_type spec.type)
    else child_at base spec (parse_upstream spec.upstream)

unfoldable pub child_options_from_spec :
    Option Options → Option TunnelSpec → Outcome SpecError Options
child_options_from_spec none spec = err nil_argument
child_options_from_spec (some base) none = err nil_argument
child_options_from_spec (some base) (some spec) = child_options base spec
