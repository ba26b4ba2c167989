-- ===== src/Registry/Tunnels/Requests.antt =====
-- The connections that wait in a tunnel, and what the other operations of the table find.
use inlets.Common.{
  ◌≡◌, ◌∙◌, inl, inr, Option, none, some, Bytes, bytes_key, Bytes-discrete, arith, ite,
  Option-cases, ok, err,
}
use inlets.Common.Dict
use inlets.Common.Dict.{Dict, get-put, get-remove}
use inlets.Registry.Domains.{ConnId}
use inlets.Registry.Tunnels.{
  TunnelMapping, TunnelContainer, source_socket_not_found, get, register_request, connect_request,
  source_socket, without_request, made,
}

same_key : (a : Bytes) {B : Type 0} (x y : B) → ite (Bytes-discrete a a) x y ≡ x
same_key a x y = ground arith

module _ {T A : Type 0} where
  -- the connection that waits in a tunnel under a request
  unfoldable pub waiting : TunnelContainer T A → Bytes → Bytes → Option ConnId
  waiting c t r = elim (get c t) [ none ↦ none | some m ↦ source_socket m r ]

  socket_put :
      (m : TunnelMapping T A) (r b : Bytes) (s : Option ConnId)
      → source_socket (record m { requests = some (Dict.put r s (made m.requests)) }) b
        ≡ ite (Bytes-discrete r b) s (source_socket m b)
  unfolding source_socket made
  socket_put m r b s = ground (arith, get-put r b s (made m.requests))

  source_socket-without_request :
      (m : TunnelMapping T A) (r b : Bytes)
      → source_socket (without_request m r) b ≡ ite (Bytes-discrete r b) none (source_socket m b)
  unfolding source_socket without_request made Dict.get
  source_socket-without_request m r b = elim (Option-cases m.requests) [
    | inl e ↦ ground arith
    | inr (d, e) ↦ ground (arith, get-remove r b d)
  ]

  waiting-register_request :
      (c : TunnelContainer T A) (t r a b : Bytes) (s : Option ConnId) {m : TunnelMapping T A}
      → get c t ≡ some m
      → waiting (register_request c t r s) a b
        ≡ ite (Bytes-discrete t a) (ite (Bytes-discrete r b) s (waiting c a b)) (waiting c a b)
  unfolding waiting register_request get
  waiting-register_request c t r a b s {m} e =
      let m' = record m { requests = some (Dict.put r s (made m.requests)) } in
      ground (arith, socket_put m r b s, get-put t a m' c)

  -- the table after the connection of a request
  unfoldable pub connected :
      TunnelContainer T A → Bytes → Bytes → TunnelMapping T A → TunnelContainer T A
  connected c t r m = Dict.put t (without_request m r) c

  waiting-connected :
      (c : TunnelContainer T A) (t r a b : Bytes) {m : TunnelMapping T A}
      → get c t ≡ some m
      → waiting (connected c t r m) a b
        ≡ ite (Bytes-discrete t a) (ite (Bytes-discrete r b) none (waiting c a b)) (waiting c a b)
  unfolding waiting connected get
  waiting-connected c t r a b {m} e =
      ground (arith, source_socket-without_request m r b, get-put t a (without_request m r) c)

  connect_request_lem :
      (c : TunnelContainer T A) (t r : Bytes) (target s : ConnId) {m : TunnelMapping T A}
      → get c t ≡ some m
      → waiting c t r ≡ some s
      → connect_request c t r target ≡ ok (connected c t r m, (s, target))
  unfolding waiting connected get connect_request
  connect_request_lem c t r target s e w = ground arith

  connect_request_missing :
      (c : TunnelContainer T A) (t r : Bytes) (target : ConnId) {m : TunnelMapping T A}
      → get c t ≡ some m
      → waiting c t r ≡ none
      → connect_request c t r target ≡ err source_socket_not_found
  unfolding waiting get connect_request
  connect_request_missing c t r target e w = ground arith

  get-register_request :
      (c : TunnelContainer T A) (t r : Bytes) (s : Option ConnId) {m : TunnelMapping T A}
      → get c t ≡ some m
      → get (register_request c t r s) t
        ≡ some (record m { requests = some (Dict.put r s (made m.requests)) })
  unfolding get register_request
  get-register_request c t r s {m} e =
      let m' = record m { requests = some (Dict.put r s (made m.requests)) } in
      ground (arith, get-put t t m' c)

  get-connected :
      (c : TunnelContainer T A) (t r : Bytes) (m : TunnelMapping T A)
      → get (connected c t r m) t ≡ some (without_request m r)
  unfolding get connected
  get-connected c t r m = ground (arith, get-put t t (without_request m r) c)

  -- In a tunnel that is there, a connection that RegisterRequest puts under a request is piped to
  -- the connection that ConnectRequest gets for that request, once: the next ConnectRequest for it
  -- finds none, and what waits under other requests and in other tunnels still waits.
  pub connect_request-register_request :
      (c : TunnelContainer T A) (t r : Bytes) (s target late : ConnId) {m : TunnelMapping T A}
      → get c t ≡ some m
      → (c' : TunnelContainer T A) × (connect_request (register_request c t r (some s)) t r target
          ≡ ok (c', (s, target)))
        × (connect_request c' t r late ≡ err source_socket_not_found)
        × ((a b : Bytes)
            → waiting c' a b
              ≡ ite
                  (Bytes-discrete t a)
                  (ite (Bytes-discrete r b) none (waiting c a b))
                  (waiting c a b))
  connect_request-register_request c t r s target late {m} e =
      let c1 = register_request c t r (some s) in
      let e1 = get-register_request c t r (some s) e in
      let w1 = λ (a b : Bytes). waiting-register_request c t r a b (some s) e in
      let w2 = λ (a b : Bytes). waiting-connected c1 t r a b e1 in
      let here : waiting c1 t r ≡ some s = w1 t r ∙ same_key t _ _ ∙ same_key r _ _ in
      let gone = w2 t r ∙ same_key t _ _ ∙ same_key r _ _ in
      (
        connected c1 t r _,
        connect_request_lem c1 t r target s e1 here,
        connect_request_missing _ t r late (get-connected c1 t r _) gone,
        λ a b. ground (arith, w1 a b, w2 a b),
      )
