-- ===== src/Config/Tests.antt =====
-- A small configuration.
use inlets.Common.{
  ◌≡◌, refl, List, [], ◌∷◌, Bool, true, false, none, some, Bytes, bytes_key, Bytes-discrete,
  ℕ_discrete, codes, ok,
}
use inlets.Common.Int.{pos}
use inlets.Common.Dict
use inlets.Common.Text.{trim_space, trim_left, trim_right, before_end}
use inlets.Config.{
  ClientConfig, FileConfig, ValidationError, validate, validate_with_details, validate_clients,
  validate_client_id, seen_after, validate_tunnels, validate_timing, get_token,
}
use inlets.Config.Secrets.{get_token-validate}

abbrev client : Bytes → Bytes → ClientConfig
client id secret = record {
  client_id = id;
  client_secret = secret;
  bandwidth_limit = none;
  tunnels = [];
}

abbrev cfg : List ClientConfig → FileConfig
cfg clients = record {
  domain = codes "example.com";
  port = pos 443;
  tcp_port = pos 8443;
  token = codes "t";
  clients = clients;
  bandwidth_limits = none;
  public_http_no_auth = none;
  admin_enabled = false;
}

abbrev two : List ClientConfig
two = client (codes "a") (codes "x") ∷ client (codes "b") (codes "y") ∷ []

abbrev parses : Bytes → Bool
parses s = true

abbrev resolves : FileConfig → Bool
resolves c = true

accepted : validate parses resolves (some (cfg two)) ≡ true
unfolding validate validate_with_details validate_clients validate_client_id seen_after
    validate_tunnels validate_timing trim_space trim_left trim_right before_end Dict.get Dict.put
    Bytes-discrete ℕ_discrete
accepted = refl

twice :
    validate_with_details parses resolves
      (some (cfg (client (codes "a") (codes "x") ∷ client (codes "a") [] ∷ [])))
    ≡ ValidationError.client_id_duplicates 1 0 ∷ ValidationError.client_secret_required 1 ∷ []
unfolding validate_with_details validate_clients validate_client_id seen_after validate_tunnels
    validate_timing trim_space trim_left trim_right before_end Dict.get Dict.put Bytes-discrete
    ℕ_discrete
twice = refl

get_token-validate_example :
    get_token (some (cfg two)) (codes "credentials") (codes "b") (codes "tcp")
    ≡ ok (record { auth_type = codes "credentials"; token = codes "y"; tunnels = [] })
get_token-validate_example =
    get_token-validate parses resolves (cfg two) 1 (client (codes "b") (codes "y")) (codes "tcp")
      accepted refl
