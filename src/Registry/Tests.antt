-- ===== src/Registry/Tests.antt =====
-- The tables of the server at concrete calls.
use inlets.Common.{
  ℕ, ◌≡◌, refl, List, [], ◌∷◌, true, false, none, some, Bytes, bytes_key, Bytes-discrete,
  ℕ_discrete, ite, codes, ok, err,
}
use inlets.Common.Dict
use inlets.Common.Dict.{Dict}
use inlets.Common.Int.{pos}
use inlets.Client.{Authentication}
use inlets.Registry.Callbacks
use inlets.Registry.Callbacks.{CallbackContainer, new_callback_container, callbacks_of, deleted}
use inlets.Registry.Callbacks.Refines
use inlets.Registry.Callbacks.Refines.{
  callbacks_refine, promised, promised_answers, to_get, to_take, to_set, to_remove,
}
use inlets.Registry.Callbacks.Leaks.{after, after-new_callback_container}
use inlets.Common.Text.{to_lower}
use inlets.Registry.Domains
use inlets.Registry.Domains.{
  DomainContainer, DomainMapping, ConnId, short_uuid, bound_name, has, new_domain_container,
  bind_ws_with_metadata, bind_ws,
}
use inlets.Registry.Domains.Names
use inlets.Registry.Domains.Names.{
  names_ignore_case, same_end, same_call, same_bind, same_has, to_bind, to_has, name, found,
  SameCalls,
}
use inlets.Registry.Tunnels
use inlets.Registry.Tunnels.{
  TunnelContainer, TunnelMapping, create, new_tunnel_container, register_request, connect_request,
  source_socket_not_found, unknown_key, invalid_id, set_field, int_value, Value, bool_value,
}
use inlets.Registry.Tunnels.Requests.{waiting, connect_request-register_request}

-- A request is answered, asked for again, and its tunnel is removed.
abbrev calls : List (Refines.Call ℕ)
calls =
    to_set (codes "t") (codes "r") 7
    ∷ to_get (codes "t") (codes "r")
    ∷ to_take (codes "t") (codes "r")
    ∷ to_take (codes "t") (codes "r")
    ∷ []

answered_once : Refines.answers new_callback_container calls ≡ none ∷ some 7 ∷ some 7 ∷ none ∷ []
unfolding Refines.answers Refines.step new_callback_container Callbacks.get Callbacks.take
    Callbacks.set callbacks_of deleted Dict.get Dict.put Dict.remove Bytes-discrete ℕ_discrete
answered_once = refl

callbacks_refine_example :
    Refines.answers new_callback_container calls ≡ promised_answers (λ t k. none) calls
callbacks_refine_example = callbacks_refine calls

nothing_waits :
    (k : Bytes) → Callbacks.get (after new_callback_container calls) (codes "t") k ≡ none
unfolding after Refines.step new_callback_container Callbacks.get Callbacks.take Callbacks.set
    callbacks_of deleted Dict.get Dict.put Dict.remove Bytes-discrete ℕ_discrete
nothing_waits k = refl

after-new_callback_container_example :
    Dict.get (codes "t") (after new_callback_container calls) ≡ none
after-new_callback_container_example = after-new_callback_container calls (codes "t") nothing_waits

-- A client binds a name, and a request comes for it in capitals.
abbrev uuid : Bytes
uuid = codes "1B4E28BA-2fa1-11d2-883f-0016d3cca427"

abbrev no_domains : DomainContainer ℕ ℕ
no_domains = new_domain_container

abbrev bound : DomainContainer ℕ ℕ
bound = (bind_ws uuid no_domains (some 4) (codes "Api")).0

short_name : (bind_ws uuid no_domains (some 4) []).1 ≡ codes "1b4e28ba"
unfolding bind_ws bind_ws_with_metadata bound_name to_lower short_uuid
short_name = refl

found_in_capitals : has bound (codes "API") ≡ true
unfolding bind_ws bind_ws_with_metadata bound_name to_lower has new_domain_container Dict.get
    Dict.put Bytes-discrete ℕ_discrete
found_in_capitals = refl

api_in_lower : to_lower (codes "Api") ≡ to_lower (codes "API")
unfolding to_lower
api_in_lower = refl

abbrev binds : Bytes → List (Names.Call ℕ ℕ)
binds sub = to_bind uuid (some 4) sub (codes "c") none true [] (codes "t") ∷ to_has sub ∷ []

binds-Same : SameCalls (binds (codes "Api")) (binds (codes "API"))
binds-Same = same_call (same_bind api_in_lower) (same_call (same_has api_in_lower) same_end)

names_ignore_case_example :
    Names.answers no_domains (binds (codes "Api")) ≡ Names.answers no_domains (binds (codes "API"))
names_ignore_case_example = names_ignore_case no_domains binds-Same

-- A tunnel with a request that waits.
abbrev auth : Authentication
auth = record {
  version = codes "2.0.0";
  type = codes "tcp";
  port = pos 22;
  sub_domain = [];
  tunnel_port = pos 8022;
  timestamp = pos 0;
  auth_type = codes "token";
  client_id = codes "c";
  signature = [];
  capabilities = none;
  opaque_child = false;
  http_ingress_basic = none;
}

abbrev tunnels : TunnelContainer ℕ ℕ
tunnels = create new_tunnel_container (codes "t") 0 (some 4) auth

abbrev tunnel : TunnelMapping ℕ ℕ
tunnel = record {
  ws_socket = some 4;
  data_sockets = [];
  token = 0;
  type = codes "tcp";
  port = pos 22;
  target_port = none;
  source_port = none;
  source_server = none;
  version = codes "2.0.0";
  auth_type = codes "token";
  client_id = codes "c";
  signature = [];
  client_timestamp = pos 0;
  tunnel_port = some (pos 8022);
  requests = some [];
  adapter = Value.nil_value;
  use_new_protocol = false;
}

tunnel_found : Tunnels.get tunnels (codes "t") ≡ some tunnel
unfolding Tunnels.get create new_tunnel_container Dict.get Dict.put Bytes-discrete ℕ_discrete
tunnel_found = refl

unknown :
    Tunnels.set tunnels (codes "t") (codes "port") (int_value (pos 1))
    ≡ err (unknown_key (codes "port"))
unfolding Tunnels.set Tunnels.set_in set_field create new_tunnel_container Dict.get Dict.put
    Bytes-discrete ℕ_discrete
unknown = refl

-- A value of another type is dropped without an error.
wrong_type : Tunnels.set tunnels (codes "t") (codes "sourcePort") (bool_value true) ≡ ok tunnels
unfolding Tunnels.set Tunnels.set_in Tunnels.port_of set_field create new_tunnel_container Dict.get
    Dict.put Bytes-discrete ℕ_discrete
wrong_type = refl

connect_request-register_request_example :
    (c' : TunnelContainer ℕ ℕ) × (connect_request
        (register_request tunnels (codes "t") (codes "r") (some 8))
        (codes "t")
        (codes "r")
        9
      ≡ ok (c', (8, 9)))
    × (connect_request c' (codes "t") (codes "r") 10 ≡ err source_socket_not_found)
    × ((a b : Bytes)
        → waiting c' a b
          ≡ ite
              (Bytes-discrete (codes "t") a)
              (ite (Bytes-discrete (codes "r") b) none (waiting tunnels a b))
              (waiting tunnels a b))
connect_request-register_request_example =
    connect_request-register_request tunnels (codes "t") (codes "r") 8 9 10 tunnel_found
