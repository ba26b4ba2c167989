-- ===== src/Client/Tests.antt =====
-- Addresses and tunnel specs at concrete inputs.
use inlets.Common.{
  ◌≡◌, refl, [], ◌∷◌, ◌++◌, true, false, none, some, Bytes, Bytes-discrete, ℕ_discrete, arith,
  codes, ok, err,
}
use inlets.Common.Int.{pos}
use inlets.Common.Text.{
  trim_space, trim_left, trim_right, before_end, to_lower, same_text, all_digits, atoi, split,
  in_front, digits_below, value_from, decimal, decimal_from,
}
use inlets.Common.Text.Trims.{NoSpace, Without}
use inlets.Client.{TunnelSpec, Authentication, Options}
use inlets.Client.Upstream.{
  UpstreamError, localhost, with_host, parse_host_port, parse_trimmed, parse_upstream,
}
use inlets.Client.Upstream.Addresses.{IsAddress, parse_upstream-decimal, parse_upstream-IsAddress}
use inlets.Client.TunnelSpecs.{
  http, tcp, snapshot, matches, named_or, http_fields, apply_fields, apply_at, apply_spec,
  child_base, child_fields, child_at, child_options, match_tunnel_spec_index,
}
use inlets.Client.TunnelSpecs.Matching.{apply_spec-matches, child_options-matches}
use inlets.Client.TunnelSpecs.Choice.{IsFirst, match_tunnel_spec_index-IsFirst}

abbrev api : Bytes
api = codes "api.local"

read_back : parse_upstream (api ++ (58 ∷ decimal 8080)) ≡ ok (api, 8080)
unfolding parse_upstream trim_space trim_left trim_right before_end parse_trimmed all_digits
    parse_host_port split in_front with_host atoi digits_below value_from decimal decimal_from
read_back = refl

too_large :
    parse_upstream (codes "65536") ≡ err (UpstreamError.invalid_upstream_port (codes "65536"))
unfolding parse_upstream trim_space trim_left trim_right before_end parse_trimmed all_digits
    with_host atoi digits_below value_from
too_large = refl

api-NoSpace : NoSpace api
api-NoSpace = (refl, (refl, (refl, (refl, (refl, (refl, (refl, (refl, (refl, tt)))))))))

api-Without : Without 58 api
api-Without = (refl, (refl, (refl, (refl, (refl, (refl, (refl, (refl, (refl, tt)))))))))

parse_upstream-decimal_example :
    (parse_upstream (api ++ (58 ∷ decimal 8080)) ≡ ok (api, 8080))
    × (parse_upstream (decimal 8080) ≡ ok (localhost, 8080))
parse_upstream-decimal_example =
    parse_upstream-decimal api 8080 api-NoSpace api-Without (λ e. cc) (omega arith) (omega arith)

parse_upstream-IsAddress_example : IsAddress (api, 8080)
parse_upstream-IsAddress_example =
    parse_upstream-IsAddress (api ++ (58 ∷ decimal 8080)) (api, 8080) read_back

abbrev web : TunnelSpec
web = record {
  name = codes "web";
  type = codes " HTTP";
  upstream = codes "3000";
  sub_domain = codes "app ";
  remote_port = pos 0;
  auth = none;
  auths = [];
}

abbrev shell : TunnelSpec
shell = record web {
  name = codes "ssh";
  type = tcp;
  upstream = codes ":22";
  remote_port = pos 8022;
}

abbrev asks : Authentication
asks = record {
  version = codes "2.0.0";
  type = http;
  port = pos 3000;
  sub_domain = codes "old";
  tunnel_port = pos 0;
  timestamp = pos 0;
  auth_type = codes "token";
  client_id = codes "c";
  signature = [];
  capabilities = none;
  opaque_child = false;
  http_ingress_basic = none;
}

abbrev options : Options
options = record {
  type = http;
  upstream_host = localhost;
  upstream_port = pos 3000;
  upstream_username = [];
  upstream_password = [];
  auth_type = codes "token";
  token = codes "t";
  client_id = codes "c";
  client_secret = [];
  sub_domain = codes "old";
  tunnel_port = pos 0;
  server = [];
  remote = [];
  remote_tcp_port = pos 0;
  healthcheck_int = pos 30;
  report_url = [];
  version = codes "2.0.0";
  reconnect_max_retries = pos 1000;
  reconnect_interval = pos 3;
  opaque_child = false;
}

applied : (apply_spec asks web).1 ≡ ok tt
unfolding apply_spec apply_at apply_fields http_fields named_or parse_upstream trim_space trim_left
    trim_right before_end to_lower same_text Bytes-discrete ℕ_discrete parse_trimmed all_digits
    with_host atoi digits_below value_from
applied = refl

apply_spec-matches_example : matches (apply_spec asks web).0 web ≡ true
apply_spec-matches_example = apply_spec-matches asks web applied

abbrev shell_options : Options
shell_options = record options {
  type = tcp;
  upstream_port = pos 22;
  sub_domain = [];
  tunnel_port = pos 8022;
  opaque_child = true;
}

child : child_options options shell ≡ ok shell_options
unfolding child_options child_at child_base child_fields parse_upstream trim_space trim_left
    trim_right before_end to_lower same_text Bytes-discrete ℕ_discrete parse_trimmed all_digits
    parse_host_port split in_front with_host atoi digits_below value_from
child = refl

child_options-matches_example : matches (snapshot shell_options) shell ≡ true
child_options-matches_example = child_options-matches options shell shell_options child

match_tunnel_spec_index-IsFirst_example :
    IsFirst asks (shell ∷ web ∷ []) 0 (match_tunnel_spec_index (some asks) (shell ∷ web ∷ []))
match_tunnel_spec_index-IsFirst_example = match_tunnel_spec_index-IsFirst asks (shell ∷ web ∷ [])
