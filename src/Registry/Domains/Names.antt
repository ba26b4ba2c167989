-- ===== src/Registry/Domains/Names.antt =====
-- How sub-domains are found again.
use inlets.Common.{
  ◌≡◌, refl, ap, List, [], ◌∷◌, Bool, Option, none, some, Bytes, bytes_key, Bytes-discrete, arith,
  ite,
}
use inlets.Common.Dict
use inlets.Common.Dict.{Dict}
use inlets.Common.Text.{to_lower}
use inlets.Registry.Domains.{
  ConnId, DomainMapping, DomainContainer, bound_name, get, has, bind_ws_with_metadata, unbind_ws,
  bind_tcp,
}

-- The names that differ in upper and lower case only are one name.
abbrev pub SameName : Bytes → Bytes → Type 0
SameName a b = to_lower a ≡ to_lower b

bound_name-SameName : (uuid a b : Bytes) → SameName a b → bound_name uuid a ≡ bound_name uuid b
unfolding bound_name to_lower
bound_name-SameName uuid [] [] h = refl
bound_name-SameName uuid [] (y ∷ b) h = cc
bound_name-SameName uuid (x ∷ a) [] h = cc
bound_name-SameName uuid (x ∷ a) (y ∷ b) h = h

-- What the server asks of the table: `to_bind` with the fresh identifier, the websocket, the
-- sub-domain, the client, the adapter, the protocol, the authentications and the tunnel.
pub data Call (A H : Type 0) : Type 0 where
  to_get : Bytes → Call A H
  to_has : Bytes → Call A H
  to_bind : Bytes → Option ConnId → Bytes → Bytes → Option A → Bool → List H → Bytes → Call A H
  to_unbind : Bytes → Call A H
  to_bind_tcp : Bytes → Option ConnId → Call A H

pub data Answer (A H : Type 0) : Type 0 where
  mapping : Option (DomainMapping A H) → Answer A H
  found : Bool → Answer A H
  name : Bytes → Answer A H
  done : Answer A H

module _ {A H : Type 0} where
  unfoldable pub step : DomainContainer A H → Call A H → DomainContainer A H × Answer A H
  step c (to_get id) = (c, mapping (get c id))
  step c (to_has id) = (c, found (has c id))
  step c (to_bind uuid ws s client adapter new auths container) =
      let (c', uid) = bind_ws_with_metadata uuid c ws s client adapter new auths container in
      (c', name uid)
  step c (to_unbind id) = (unbind_ws c id, done)
  step c (to_bind_tcp id tcp) = (bind_tcp c id tcp, done)

  -- the answers of the calls in order
  unfoldable pub answers : DomainContainer A H → List (Call A H) → List (Answer A H)
  answers c [] = []
  answers c (call ∷ calls) = (step c call).1 ∷ answers (step c call).0 calls

  -- The calls are one but for the case of the names in them.
  pub data SameCall : Call A H → Call A H → Type 0 where
    same_get : {a b : Bytes} → SameName a b → SameCall (to_get a) (to_get b)
    same_has : {a b : Bytes} → SameName a b → SameCall (to_has a) (to_has b)
    same_bind :
        {uuid a b client container : Bytes} {ws : Option ConnId} {adapter : Option A} {new : Bool}
        {auths : List H}
        → SameName a b
        → SameCall
            (to_bind uuid ws a client adapter new auths container)
            (to_bind uuid ws b client adapter new auths container)
    same_unbind : {a b : Bytes} → SameName a b → SameCall (to_unbind a) (to_unbind b)
    same_bind_tcp :
        {a b : Bytes} {tcp : Option ConnId}
        → SameName a b
        → SameCall (to_bind_tcp a tcp) (to_bind_tcp b tcp)

  pub data SameCalls : List (Call A H) → List (Call A H) → Type 0 where
    same_end : SameCalls [] []
    same_call :
        {call call' : Call A H} {calls calls' : List (Call A H)}
        → SameCall call call'
        → SameCalls calls calls'
        → SameCalls (call ∷ calls) (call' ∷ calls')

  bind_tcp-SameName :
      (c : DomainContainer A H) (a b : Bytes) (tcp : Option ConnId)
      → SameName a b
      → bind_tcp c a tcp ≡ bind_tcp c b tcp
  unfolding bind_tcp
  bind_tcp-SameName c a b tcp h = ground (arith, h)

  step-SameCall :
      (c : DomainContainer A H) {call call' : Call A H}
      → SameCall call call'
      → step c call ≡ step c call'
  unfolding step get has unbind_ws bind_tcp bind_ws_with_metadata
  step-SameCall c (same_get h) = rw h refl
  step-SameCall c (same_has {a} {b} h) = ground (arith, h)
  step-SameCall c (same_bind {uuid} {a} {b} h) = rw (bound_name-SameName uuid a b h) refl
  step-SameCall c (same_unbind h) = rw h refl
  step-SameCall c (same_bind_tcp {a} {b} {tcp} h) = rw (bind_tcp-SameName c a b tcp h) refl

  -- Upper and lower case make no difference: calls on the table of sub-domains that differ in the
  -- case of the names only are answered alike, each of them, the names that BindWS returns
  -- included.
  pub names_ignore_case :
      (c : DomainContainer A H) {calls calls' : List (Call A H)}
      → SameCalls calls calls'
      → answers c calls ≡ answers c calls'
  unfolding answers
  names_ignore_case c same_end = refl
  names_ignore_case c (same_call {call} {call'} h hs) =
      let e = step-SameCall c h in
      rw e (ap (◌∷◌ (step c call').1) (names_ignore_case (step c call').0 hs))

  -- what BindTCP leaves of a mapping
  abbrev pub with_tcp : Option ConnId → Option (DomainMapping A H) → Option (DomainMapping A H)
  with_tcp tcp none = none
  with_tcp tcp (some d) = some (record d { tcp_socket = tcp })

  -- what a call leaves of the mapping `o` that Get has found under `id` before it
  unfoldable pub left_by :
      Call A H → Bytes → Option (DomainMapping A H) → Option (DomainMapping A H)
  left_by (to_get a) id o = o
  left_by (to_has a) id o = o
  left_by (to_bind uuid ws s client adapter new auths container) id o =
      ite (Bytes-discrete (bound_name uuid s) (to_lower id))
        (some (record {
          ws_socket = ws;
          tcp_socket = none;
          container_id = container;
          client_id = client;
          http_auths = auths;
          adapter = adapter;
          use_new_protocol = new;
        }))
        o
  left_by (to_unbind a) id o = ite (Bytes-discrete (to_lower a) (to_lower id)) none o
  left_by (to_bind_tcp a tcp) id o =
      ite (Bytes-discrete (to_lower a) (to_lower id)) (with_tcp tcp o) o
