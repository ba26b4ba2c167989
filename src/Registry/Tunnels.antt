-- ===== src/Registry/Tunnels.antt =====
-- internal/server/container/tunnel.go: the tunnels of the authenticated clients. Connections and
-- listeners are numbers, and the two goroutines that pipe a pair of connections are that pair.
-- `T` is the type of GetToken functions, `A` that of the values that Set gets and this file does
-- not name. The mutexes of a mapping are not modelled.
pub mod Requests
use inlets.Common.{
  ℕ, List, [], ◌∷◌, Bool, true, false, Option, none, some, Bytes, bytes_key, codes, ite,
  Bytes-discrete, Outcome, ok, err, ◌>>=◌, ◌>>◌,
}
use inlets.Common.Dict
use inlets.Common.Dict.{Dict}
use inlets.Common.Int.{ℤ}
use inlets.Client.{Authentication}
use inlets.Registry.Domains.{ConnId}

-- A value of type `interface{}`.
pub data Value (A : Type 0) : Type 0 where
  nil_value : Value A
  int_value : ℤ → Value A
  int_pointer : Option ℤ → Value A
  listener : ℕ → Value A
  bool_value : Bool → Value A
  other_value : A → Value A

pub record TunnelMapping (T A : Type 0) : Type 0 where
  pub ws_socket : Option ConnId
  pub data_sockets : Dict Bytes ConnId
  pub token : T
  pub type : Bytes
  pub port : ℤ
  pub target_port : Option ℤ
  pub source_port : Option ℤ
  pub source_server : Option ℕ
  pub version : Bytes
  pub auth_type : Bytes
  pub client_id : Bytes
  pub signature : Bytes
  pub client_timestamp : ℤ
  pub tunnel_port : Option ℤ
  pub requests : Option (Dict Bytes (Option ConnId))
  pub adapter : Value A
  pub use_new_protocol : Bool

pub data TunnelError : Type 0 where
  invalid_id : TunnelError
  unknown_key : Bytes → TunnelError
  container_not_found : TunnelError
  source_socket_not_found : TunnelError

abbrev pub TunnelContainer : Type 0 → Type 0 → Type 0
TunnelContainer T A = Dict Bytes (TunnelMapping T A)

module _ {A : Type 0} where
  -- a port as an int or as a pointer; other values leave it
  unfoldable pub port_of : Value A → Option ℤ → Option ℤ
  port_of (int_value port) old = some port
  port_of (int_pointer port) old = port
  port_of nil_value old = old
  port_of (listener n) old = old
  port_of (bool_value b) old = old
  port_of (other_value a) old = old

  unfoldable pub server_of : Value A → Option ℕ → Option ℕ
  server_of nil_value old = none
  server_of (listener srv) old = some srv
  server_of (int_value port) old = old
  server_of (int_pointer port) old = old
  server_of (bool_value b) old = old
  server_of (other_value a) old = old

  unfoldable pub bool_of : Value A → Bool → Bool
  bool_of (bool_value use_new) old = use_new
  bool_of nil_value old = old
  bool_of (int_value port) old = old
  bool_of (int_pointer port) old = old
  bool_of (listener n) old = old
  bool_of (other_value a) old = old

-- `mapping.Requests`, made where it is nil
unfoldable pub made : Option (Dict Bytes (Option ConnId)) → Dict Bytes (Option ConnId)
made none = []
made (some m) = m

module _ {T A : Type 0} where
  unfoldable pub new_tunnel_container : TunnelContainer T A
  new_tunnel_container = []

  unfoldable pub create :
      TunnelContainer T A → Bytes → T → Option ConnId → Authentication → TunnelContainer T A
  create c id token ws auth =
      Dict.put id
        (record {
          ws_socket = ws;
          data_sockets = [];
          token = token;
          type = auth.type;
          port = auth.port;
          target_port = none;
          source_port = none;
          source_server = none;
          version = auth.version;
          auth_type = auth.auth_type;
          client_id = auth.client_id;
          signature = auth.signature;
          client_timestamp = auth.timestamp;
          tunnel_port = some auth.tunnel_port;
          requests = some [];
          adapter = nil_value;
          use_new_protocol = false;
        })
        c

  -- The field Destroy of the mapping `id`: the table and the listener that is closed. It looks the
  -- mapping up again when it is called.
  unfoldable pub destroy : TunnelContainer T A → Bytes → TunnelContainer T A × Option ℕ
  destroy c id = elim (Dict.get id c) [
    | none ↦ (c, none)
    | some mapping ↦ (Dict.remove id c, mapping.source_server)
  ]

  unfoldable pub get : TunnelContainer T A → Bytes → Option (TunnelMapping T A)
  get c id = Dict.get id c

  unfoldable pub list_all : TunnelContainer T A → TunnelContainer T A
  list_all [] = []
  list_all ((id, mapping) ∷ c) = Dict.put id mapping (list_all c)

  -- the switch on the key
  unfoldable pub set_field :
      TunnelMapping T A → Bytes → Value A → Outcome TunnelError (TunnelMapping T A)
  set_field m key value =
      ite (Bytes-discrete key (codes "sourcePort"))
        (ok (record m { source_port = port_of value m.source_port }))
        (ite (Bytes-discrete key (codes "sourceServer"))
          (ok (record m { source_server = server_of value m.source_server }))
          (ite (Bytes-discrete key (codes "targetPort"))
            (ok (record m { target_port = port_of value m.target_port }))
            (ite (Bytes-discrete key (codes "adapter")) (ok (record m { adapter = value })) (
              ite (Bytes-discrete key (codes "useNewProtocol"))
                (ok (record m { use_new_protocol = bool_of value m.use_new_protocol }))
                (err (unknown_key key))))))

  -- the mapping that is found, or nil
  unfoldable pub set_in :
      TunnelContainer T A
      → Bytes
      → Bytes
      → Value A
      → Option (TunnelMapping T A)
      → Outcome TunnelError (TunnelContainer T A)
  set_in c id key value none = err invalid_id
  set_in c id key value (some mapping) = set_field mapping key value >>= λ m. ok (Dict.put id m c)

  unfoldable pub set :
      TunnelContainer T A → Bytes → Bytes → Value A → Outcome TunnelError (TunnelContainer T A)
  set c id key value = set_in c id key value (Dict.get id c)

  unfoldable pub remove : TunnelContainer T A → Bytes → TunnelContainer T A
  remove c id = Dict.remove id c

  unfoldable pub register_request :
      TunnelContainer T A → Bytes → Bytes → Option ConnId → TunnelContainer T A
  register_request c container_id request_id source = elim (Dict.get container_id c) [
    | none ↦ c
    | some mapping ↦
        Dict.put container_id
          (record mapping { requests = some (Dict.put request_id source (made mapping.requests)) })
          c
  ]

  -- `mapping.Requests[requestId]`
  unfoldable pub source_socket : TunnelMapping T A → Bytes → Option ConnId
  source_socket mapping request_id = elim (Dict.get request_id (made mapping.requests)) [
    | none ↦ none
    | some source ↦ source
  ]

  unfoldable pub without_request : TunnelMapping T A → Bytes → TunnelMapping T A
  without_request mapping request_id = record mapping {
    requests = elim mapping.requests [ none ↦ none | some m ↦ some (Dict.remove request_id m) ];
  }

  -- the table and the connections that are piped
  unfoldable pub connect_request :
      TunnelContainer T A
      → Bytes
      → Bytes
      → ConnId
      → Outcome TunnelError (TunnelContainer T A × (ConnId × ConnId))
  connect_request c container_id request_id target = elim (Dict.get container_id c) [
    | none ↦ err container_not_found
    | some mapping ↦ elim (source_socket mapping request_id) [
      | none ↦ err source_socket_not_found
      | some source ↦
          ok (Dict.put container_id (without_request mapping request_id) c, (source, target))
    ]
  ]
