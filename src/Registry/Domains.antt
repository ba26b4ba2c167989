-- ===== src/Registry/Domains.antt =====
-- internal/server/container/domain.go: the sub-domains and the websockets behind them. `A` is what
-- the field Adapter holds and `H` an HTTP authentication of client.HTTPTunnelAuth; connections are
-- numbers. Host names are ASCII.
pub mod Names
use inlets.Common.{
  ℕ, zero, suc, ◌+◌, ◌≤◌, List, [], ◌∷◌, Bool, true, false, ◌&&◌, Option, none, some, Bytes,
  bytes_key, leb, if◌then◌else◌, take,
}
use inlets.Common.Dict
use inlets.Common.Dict.{Dict}
use inlets.Common.Text.{to_lower}

abbrev pub ConnId : Type 0
ConnId = ℕ

pub record DomainMapping (A H : Type 0) : Type 0 where
  pub ws_socket : Option ConnId
  pub tcp_socket : Option ConnId
  pub container_id : Bytes
  pub client_id : Bytes
  pub http_auths : List H
  pub adapter : Option A
  pub use_new_protocol : Bool

abbrev pub DomainContainer : Type 0 → Type 0 → Type 0
DomainContainer A H = Dict Bytes (DomainMapping A H)

-- `uuid.New().String()[:8]` for the identifier that the library makes
unfoldable pub short_uuid : Bytes → Bytes
short_uuid uuid = take 8 uuid

-- The identifier is asked for only where the sub-domain is empty.
unfoldable pub bound_name : Bytes → Bytes → Bytes
bound_name uuid [] = to_lower (short_uuid uuid)
bound_name uuid (b ∷ sub_domain) = to_lower (b ∷ sub_domain)

module _ {A H : Type 0} where
  unfoldable pub new_domain_container : DomainContainer A H
  new_domain_container = []

  unfoldable pub get : DomainContainer A H → Bytes → Option (DomainMapping A H)
  get c id = Dict.get (to_lower id) c

  -- a copy of the map; it shares the entries
  unfoldable pub get_all : DomainContainer A H → DomainContainer A H
  get_all [] = []
  get_all ((id, mapping) ∷ c) = Dict.put id mapping (get_all c)

  unfoldable pub has : DomainContainer A H → Bytes → Bool
  has c id = elim (Dict.get (to_lower id) c) [ none ↦ false | some _ ↦ true ]

  unfoldable pub bind_ws_with_metadata :
      Bytes
      → DomainContainer A H
      → Option ConnId
      → Bytes
      → Bytes
      → Option A
      → Bool
      → List H
      → Bytes
      → DomainContainer A H × Bytes
  bind_ws_with_metadata uuid c ws sub_domain client_id adapter use_new_protocol http_auths
        container_id =
      let uid = bound_name uuid sub_domain in
      (
        Dict.put uid
            (record {
              ws_socket = ws;
              tcp_socket = none;
              container_id = container_id;
              client_id = client_id;
              http_auths = http_auths;
              adapter = adapter;
              use_new_protocol = use_new_protocol;
            })
            c,
        uid,
      )

  unfoldable pub bind_ws :
      Bytes → DomainContainer A H → Option ConnId → Bytes → DomainContainer A H × Bytes
  bind_ws uuid c ws sub_domain = bind_ws_with_metadata uuid c ws sub_domain [] none false [] []

  unfoldable pub unbind_ws : DomainContainer A H → Bytes → DomainContainer A H
  unbind_ws c id = Dict.remove (to_lower id) c

  unfoldable pub bind_tcp : DomainContainer A H → Bytes → Option ConnId → DomainContainer A H
  bind_tcp c id tcp = elim (Dict.get (to_lower id) c) [
    | none ↦ c
    | some mapping ↦ Dict.put (to_lower id) (record mapping { tcp_socket = tcp }) c
  ]
