-- ===== src/Monitor/Auth/Lifetime.antt =====
-- What is left of a client that was in and is gone.
use inlets.Common.{
  ◌≡◌, ◌≢◌, refl, subst, List, [], ◌∷◌, false, ◌&&◌, not, Option, none, some, Bytes, bytes_key,
  if_case, Outcome, ok, err, panic, codes,
}
use inlets.Common.Text.{same_text, is_blank, trim_space}
use inlets.Client.{Authentication, HttpTunnelAuth}
use inlets.Client.TunnelSpecs.{http, tcp}
use inlets.Protocol.{Capabilities}
use inlets.Stats.{Clock}
use inlets.Registry.Domains.{DomainContainer, ConnId, bound_name, short_uuid, has}
use inlets.Registry.Domains
use inlets.Registry.Tunnels.{TunnelContainer, TunnelMapping, TunnelError, Value, create, set_field}
use inlets.Registry.Tunnels
use inlets.Monitor.Auth.{
  Settings, Server, Incoming, Session, TokenResponse, AuthError, unbound, with_tunnel, bind_domain,
  open_tunnel, is_used, session_of, enter, admit, verify, gate, checked, handle_authenticate,
  handle_disconnect, format_int, is_new,
}
use inlets.Monitor.Auth.Tables.{
  SameBut, SameDomains, IsFree, add_tunnel-SameBut, destroyed, unbound_again, has-IsFree,
  bound_name_lower, bound_name_some,
}
use inlets.Monitor.Negotiation.{negotiate_capabilities}
use inlets.Monitor.Policy.{ModernReason}

module _ {T A : Type 0} (settings : Settings T A) (server : Server T A) (incoming : Incoming)
    (new_id : Tunnels.get server.tunnels incoming.container_uuid ≡ none)
    (some_id : incoming.domain_uuid ≢ [])
    (new_name : IsFree server.domains (bound_name incoming.domain_uuid [])) where
  -- the disconnect undoes what the branches on the type have done
  abbrev IsUndone : Server T A × Outcome AuthError Bytes → Type 0
  IsUndone (server', ok name) =
      SameBut incoming.container_uuid server.tunnels server'.tunnels
      × SameDomains server.domains (unbound server'.domains name)
  IsUndone (server', err e) = Unit {0}
  IsUndone (server', panic) = Unit {0}

  named_freely :
      (auth : Authentication)
      → (not (is_blank auth.sub_domain) && has server.domains auth.sub_domain) ≡ false
      → IsFree server.domains (bound_name incoming.domain_uuid auth.sub_domain)
  unfolding bound_name
  named_freely auth h = free_for auth.sub_domain h
    where
      free_for :
          (s : Bytes)
          → (not (is_blank s) && has server.domains s) ≡ false
          → IsFree server.domains (bound_name incoming.domain_uuid s)
      free_for [] g = new_name
      free_for (b ∷ s) g = has-IsFree server.domains (b ∷ s) g

  open_tunnel-IsUndone :
      (auth : Authentication) (negotiated : Option Capabilities) (auths : List HttpTunnelAuth)
      → IsUndone (open_tunnel settings server incoming auth negotiated auths)
  unfolding open_tunnel with_tunnel bind_domain is_used Domains.bind_ws_with_metadata unbound
  open_tunnel-IsUndone auth negotiated auths =
      let id = incoming.container_uuid in
      let same =
        add_tunnel-SameBut server.tunnels id settings.get_token (some incoming.socket) auth
          (settings.adapter negotiated) (is_new negotiated) in
      let uuid = incoming.domain_uuid in
      let s = auth.sub_domain in
      if_case IsUndone (same_text auth.type tcp) _ _ (λ e. (same, λ x. refl))
        (λ e.
          if_case IsUndone (same_text auth.type http) _ _
            (λ f.
              if_case IsUndone (not (is_blank s) && has server.domains s) _ _ (λ g. tt)
                (λ g. (
                  same,
                  unbound_again server.domains (bound_name uuid s) _ (bound_name_lower uuid s)
                      (bound_name_some uuid s some_id) (named_freely auth g),
                )))
            (λ f.
              if_case IsUndone (is_blank (trim_space auth.type)) _ _ (λ g. (λ j n. refl, λ x. refl))
                (λ g. tt)))

  -- after a disconnect both tables answer as before the client came
  abbrev IsGone : Server T A × Outcome AuthError Session → Type 0
  IsGone (server', ok session) =
      (later : Clock) (j x : Bytes)
      → (Tunnels.get (handle_disconnect server' session later).0.tunnels j
          ≡ Tunnels.get server.tunnels j)
        × (Domains.get (handle_disconnect server' session later).0.domains x
            ≡ Domains.get server.domains x)
  IsGone (server', err e) = Unit {0}
  IsGone (server', panic) = Unit {0}

  module _ (response : TokenResponse) (clock : Clock) where
    enter-IsGone :
        (named : Authentication) (negotiated : Option Capabilities)
        (r : Server T A × Outcome AuthError Bytes)
        → IsUndone r
        → IsGone (enter settings incoming named response negotiated clock r)
    unfolding enter handle_disconnect session_of
    enter-IsGone named negotiated (server', ok name) (same, domains) = λ later j x.
        (destroyed server.tunnels server'.tunnels incoming.container_uuid j new_id same, domains x)
    enter-IsGone named negotiated (server', err e) u = tt
    enter-IsGone named negotiated (server', panic) u = tt

    admit-IsGone :
        (named : Authentication) (r : Outcome ⊥ (Option Capabilities))
        → IsGone (admit settings server incoming named response clock r)
    unfolding admit
    admit-IsGone named (err e) = tt
    admit-IsGone named panic = tt
    admit-IsGone named (ok negotiated) =
        enter-IsGone named negotiated _ (open_tunnel-IsUndone named negotiated _)

    verify-IsGone :
        (auth : Authentication) → IsGone (verify settings server incoming auth response clock)
    unfolding verify
    verify-IsGone auth =
        if_case IsGone
          (same_text response.auth_type (codes "public") && not (is_blank auth.sub_domain)) _ _
          (λ e. tt)
          (λ e.
            if_case IsGone (is_blank response.token) _ _ (λ f. tt)
              (λ f.
                if_case IsGone
                  (not (
                    same_text (settings.hmac (format_int auth.timestamp) response.token)
                      auth.signature))
                  _ _ (λ g. tt) (λ g. admit-IsGone _ (negotiate_capabilities auth.capabilities))))

    gate-IsGone :
        (auth : Authentication) (r : Option ModernReason)
        → IsGone (gate settings server incoming auth response clock r)
    unfolding gate
    gate-IsGone auth (some reason) = tt
    gate-IsGone auth none = verify-IsGone auth

  checked-IsGone :
      (auth : Authentication) (clock : Clock) (r : Option TokenResponse)
      → IsGone (checked settings server incoming auth clock r)
  unfolding checked
  checked-IsGone auth clock none = tt
  checked-IsGone auth clock (some response) = gate-IsGone response clock auth _

  -- A client that got in and is disconnected leaves no trace in the tables: every tunnel and every
  -- sub-domain is found, or not, as before it came. The identifier of its tunnel and the name that
  -- is made for a client without a sub-domain are new, which nothing checks.
  pub handle_disconnect-handle_authenticate :
      (auth : Authentication) (clock later : Clock) (server' : Server T A) (session : Session)
      (j x : Bytes)
      → handle_authenticate settings server incoming auth clock ≡ (server', ok session)
      → (Tunnels.get (handle_disconnect server' session later).0.tunnels j
          ≡ Tunnels.get server.tunnels j)
        × (Domains.get (handle_disconnect server' session later).0.domains x
            ≡ Domains.get server.domains x)
  unfolding handle_authenticate
  handle_disconnect-handle_authenticate auth clock later server' session j x h =
      subst IsGone h (checked-IsGone auth clock _) later j x
