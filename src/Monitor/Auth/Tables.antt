-- ===== src/Monitor/Auth/Tables.antt =====
-- What the operations that open and close a tunnel leave of the tables.
use inlets.Common.{
  ◌≡◌, ◌≢◌, refl, ap, sym, ◌∙◌, [], ◌∷◌, Bool, false, Option, none, some, Bytes, bytes_key,
  Bytes-discrete, arith, ite, if_pos, if_neg, inl, inr, Outcome, ok, err, panic, ◌>>=◌,
  Option-cases, codes,
}
use inlets.Common.Dict
use inlets.Common.Dict.{Dict, get-put, get-remove}
use inlets.Common.Text.{to_lower}
use inlets.Common.Text.Trims.{to_lower_idem}
use inlets.Client.{Authentication, HttpTunnelAuth}
use inlets.Registry.Domains.{DomainContainer, ConnId, bound_name, short_uuid, has}
use inlets.Registry.Domains
use inlets.Registry.Tunnels.{TunnelContainer, TunnelMapping, TunnelError, Value, create, set_field}
use inlets.Registry.Tunnels
use inlets.Monitor.Auth.{or_same, add_tunnel, unbound}

module _ {T A : Type 0} where
  -- the tables differ at this identifier only
  abbrev pub SameBut : Bytes → TunnelContainer T A → TunnelContainer T A → Type 0
  SameBut id c c' = (j : Bytes) → id ≢ j → Tunnels.get c' j ≡ Tunnels.get c j

  put-SameBut :
      (c : TunnelContainer T A) (id : Bytes) (m : TunnelMapping T A)
      → SameBut id c (Dict.put id m c)
  unfolding Tunnels.get
  put-SameBut c id m j n = get-put id j m c ∙ if_neg (Bytes-discrete id j) n _ _

  stored :
      (c : TunnelContainer T A) (id : Bytes) (r : Outcome TunnelError (TunnelMapping T A))
      → SameBut id c (or_same c (r >>= λ m. ok (Dict.put id m c)))
  stored c id (ok m) = put-SameBut c id m
  stored c id (err e) = λ j n. refl
  stored c id panic = λ j n. refl

  set_in-SameBut :
      (c : TunnelContainer T A) (id key : Bytes) (v : Value A) (o : Option (TunnelMapping T A))
      → SameBut id c (or_same c (Tunnels.set_in c id key v o))
  unfolding Tunnels.set_in
  set_in-SameBut c id key v none = λ j n. refl
  set_in-SameBut c id key v (some m) = stored c id (set_field m key v)

  set-SameBut :
      (c : TunnelContainer T A) (id key : Bytes) (v : Value A)
      → SameBut id c (or_same c (Tunnels.set c id key v))
  unfolding Tunnels.set
  set-SameBut c id key v = set_in-SameBut c id key v (Dict.get id c)

  create-SameBut :
      (c : TunnelContainer T A) (id : Bytes) (token : T) (ws : Option ConnId)
      (auth : Authentication)
      → SameBut id c (create c id token ws auth)
  unfolding create
  create-SameBut c id token ws auth = put-SameBut c id _

  pub add_tunnel-SameBut :
      (c : TunnelContainer T A) (id : Bytes) (token : T) (ws : Option ConnId)
      (auth : Authentication) (adapter : A) (new : Bool)
      → SameBut id c (add_tunnel c id token ws auth adapter new)
  unfolding add_tunnel
  add_tunnel-SameBut c id token ws auth adapter new j n =
      let c1 = create c id token ws auth in
      let c2 = or_same c1 (Tunnels.set c1 id (codes "adapter") (Value.other_value adapter)) in
      set-SameBut c2 id (codes "useNewProtocol") (Value.bool_value new) j n
      ∙ set-SameBut c1 id (codes "adapter") (Value.other_value adapter) j n
      ∙ create-SameBut c id token ws auth j n

  get-destroy :
      (c : TunnelContainer T A) (id j : Bytes)
      → Tunnels.get (Tunnels.destroy c id).0 j ≡ ite (Bytes-discrete id j) none (Tunnels.get c j)
  unfolding Tunnels.get Tunnels.destroy
  get-destroy c id j = elim (Option-cases (Dict.get id c)) [
    | inl e ↦ ground arith
    | inr (m, e) ↦ ground (arith, get-remove id j c)
  ]

  -- a fresh tunnel that is destroyed leaves the table as it was
  pub destroyed :
      (c c' : TunnelContainer T A) (id j : Bytes)
      → Tunnels.get c id ≡ none
      → SameBut id c c'
      → Tunnels.get (Tunnels.destroy c' id).0 j ≡ Tunnels.get c j
  destroyed c c' id j fresh same = elim (Bytes-discrete id j) [
    | yes p ↦
        get-destroy c' id j
        ∙ if_pos (Bytes-discrete id j) p _ _
        ∙ sym fresh
        ∙ ap (λ (x : Bytes). Tunnels.get c x) p
    | no n ↦ get-destroy c' id j ∙ if_neg (Bytes-discrete id j) n _ _ ∙ same j n
  ]

pub bound_name_lower : (uuid s : Bytes) → to_lower (bound_name uuid s) ≡ bound_name uuid s
unfolding bound_name
bound_name_lower uuid [] = to_lower_idem _
bound_name_lower uuid (b ∷ s) = to_lower_idem (b ∷ s)

pub bound_name_some : (uuid s : Bytes) → uuid ≢ [] → bound_name uuid s ≢ []
unfolding bound_name short_uuid to_lower
bound_name_some [] [] h e = h refl
bound_name_some (u ∷ uuid) [] h e = cc
bound_name_some uuid (b ∷ s) h e = cc

module _ {A : Type 0} where
  -- the domains answer alike
  abbrev pub SameDomains :
      DomainContainer A HttpTunnelAuth → DomainContainer A HttpTunnelAuth → Type 0
  SameDomains c c' = (x : Bytes) → Domains.get c' x ≡ Domains.get c x

  unbound_some :
      (c : DomainContainer A HttpTunnelAuth) (name : Bytes)
      → name ≢ []
      → unbound c name ≡ Domains.unbind_ws c name
  unfolding unbound
  unbound_some c [] h = absurd (h refl)
  unbound_some c (b ∷ name) h = refl

  get-unbind_ws :
      (c : DomainContainer A HttpTunnelAuth) (name x : Bytes)
      → Domains.get (Domains.unbind_ws c name) x
        ≡ ite (Bytes-discrete (to_lower name) (to_lower x)) none (Domains.get c x)
  unfolding Domains.get Domains.unbind_ws
  get-unbind_ws c name x = get-remove (to_lower name) (to_lower x) c

  -- the name is free
  abbrev pub IsFree : DomainContainer A HttpTunnelAuth → Bytes → Type 0
  IsFree c name = Dict.get name c ≡ none

  free_get :
      (c : DomainContainer A HttpTunnelAuth) (name x : Bytes)
      → IsFree c name
      → name ≡ to_lower x
      → Domains.get c x ≡ none
  unfolding Domains.get
  free_get c name x h e = ap (λ (y : Bytes). Dict.get y c) (sym e) ∙ h

  pub unbound_again :
      (c : DomainContainer A HttpTunnelAuth) (name : Bytes)
      (m : Domains.DomainMapping A HttpTunnelAuth)
      → to_lower name ≡ name
      → name ≢ []
      → IsFree c name
      → SameDomains c (unbound (Dict.put name m c) name)
  unfolding Domains.get
  unbound_again c name m low full free x =
      let e = get-unbind_ws (Dict.put name m c) name x in
      let p = get-put name (to_lower x) m c in
      let f = free_get c name x free in
      rw (unbound_some (Dict.put name m c) name full) (ground (arith, e, p, f, low))

  pub has-IsFree :
      (c : DomainContainer A HttpTunnelAuth) (s : Bytes) → has c s ≡ false → IsFree c (to_lower s)
  unfolding has
  has-IsFree c s h = ground (arith, h)
