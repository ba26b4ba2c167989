-- ===== src/Monitor/Auth/Sound.antt =====
-- Who gets in, and what a refused client leaves.
use inlets.Common.{
  ◌≡◌, refl, List, Bool, true, false, ◌&&◌, not, Option, none, some, Bytes, codes, if_case, Outcome,
  ok, err, panic,
}
use inlets.Common.Text.{same_text, is_blank, trim_space}
use inlets.Client.{Authentication, HttpTunnelAuth}
use inlets.Client.TunnelSpecs.{http, tcp}
use inlets.Protocol.{Capabilities}
use inlets.Stats.{Clock}
use inlets.Monitor.Negotiation.{negotiate_capabilities}
use inlets.Monitor.Policy.{ModernReason, requires_modern_client_for_advanced_features}
use inlets.Monitor.Auth.{
  Settings, Server, Incoming, Session, TokenResponse, AuthError, or_text, format_int, with_tunnel,
  open_tunnel, is_used, enter, admit, verify, gate, checked, handle_authenticate,
}

double_negated : (b : Bool) → not b ≡ false → b ≡ true
double_negated true h = refl
double_negated false h = absurd (cc)

module _ {T A : Type 0} (settings : Settings T A) (server : Server T A) (incoming : Incoming) where
  -- the client showed its secret for this answer of the token function
  pub record Entitled (auth : Authentication) (response : TokenResponse) : Type 0 where
    pub version_fits :
        requires_modern_client_for_advanced_features auth.version auth response.tunnels ≡ none
    pub name_allowed :
        (same_text response.auth_type (codes "public") && not (is_blank auth.sub_domain)) ≡ false
    pub has_secret : is_blank response.token ≡ false
    pub signed :
        same_text (settings.hmac (format_int auth.timestamp) response.token) auth.signature ≡ true

  -- what the token function says of this client
  abbrev pub answer : Authentication → Option TokenResponse
  answer auth =
      settings.token (or_text auth.auth_type (codes "token")) auth.client_id auth.type
        auth.opaque_child

  -- the domains and the statistics are as before
  pub record Untouched (server' : Server T A) : Type 0 where
    pub same_domains : server'.domains ≡ server.domains
    pub same_stats : server'.stats ≡ server.stats

  -- who gets in, and what the others leave
  abbrev pub IsSound : Authentication → Server T A × Outcome AuthError Session → Type 0
  IsSound auth (server', ok session) =
      (response : TokenResponse) × (answer auth ≡ some response) × Entitled auth response
  IsSound auth (server', err e) = Untouched server'
  IsSound auth (server', panic) = Untouched server'

  unchanged : Untouched server
  unchanged = record { same_domains = refl; same_stats = refl }

  with_tunnel-Untouched :
      (auth : Authentication) (negotiated : Option Capabilities)
      → Untouched (with_tunnel settings server incoming auth negotiated)
  unfolding with_tunnel
  with_tunnel-Untouched auth negotiated = record { same_domains = refl; same_stats = refl }

  -- a tunnel that is not opened
  abbrev OpensWell : Server T A × Outcome AuthError Bytes → Type 0
  OpensWell (server', ok name) = Unit {0}
  OpensWell (server', err e) = Untouched server'
  OpensWell (server', panic) = Untouched server'

  open_tunnel-OpensWell :
      (auth : Authentication) (negotiated : Option Capabilities) (auths : List HttpTunnelAuth)
      → OpensWell (open_tunnel settings server incoming auth negotiated auths)
  unfolding open_tunnel
  open_tunnel-OpensWell auth negotiated auths =
      if_case OpensWell (same_text auth.type tcp) _ _ (λ e. tt)
        (λ e.
          if_case OpensWell (same_text auth.type http) _ _
            (λ f.
              if_case OpensWell
                (is_used (with_tunnel settings server incoming auth negotiated) auth) _ _
                (λ g. with_tunnel-Untouched auth negotiated) (λ g. tt))
            (λ f.
              if_case OpensWell (is_blank (trim_space auth.type)) _ _ (λ g. tt) (λ g. unchanged)))

  module _ (auth : Authentication) (response : TokenResponse) (clock : Clock)
      (known : answer auth ≡ some response) where
    enter-IsSound :
        (named : Authentication) (negotiated : Option Capabilities)
        (r : Server T A × Outcome AuthError Bytes)
        → Entitled auth response
        → OpensWell r
        → IsSound auth (enter settings incoming named response negotiated clock r)
    unfolding enter
    enter-IsSound named negotiated (server', ok name) h w = (response, known, h)
    enter-IsSound named negotiated (server', err e) h w = w
    enter-IsSound named negotiated (server', panic) h w = w

    admit-IsSound :
        (named : Authentication) (r : Outcome ⊥ (Option Capabilities))
        → Entitled auth response
        → IsSound auth (admit settings server incoming named response clock r)
    unfolding admit
    admit-IsSound named (err e) h = absurd e
    admit-IsSound named panic h = unchanged
    admit-IsSound named (ok negotiated) h =
        enter-IsSound named negotiated _ h (open_tunnel-OpensWell named negotiated _)

    verify-IsSound :
        requires_modern_client_for_advanced_features auth.version auth response.tunnels ≡ none
        → IsSound auth (verify settings server incoming auth response clock)
    unfolding verify
    verify-IsSound modern =
        if_case (IsSound auth)
          (same_text response.auth_type (codes "public") && not (is_blank auth.sub_domain)) _ _
          (λ e. unchanged)
          (λ public_.
            if_case (IsSound auth) (is_blank response.token) _ _ (λ e. unchanged)
              (λ secret.
                if_case (IsSound auth)
                  (not (
                    same_text (settings.hmac (format_int auth.timestamp) response.token)
                      auth.signature))
                  _ _ (λ e. unchanged)
                  (λ signature. admit-IsSound _ (negotiate_capabilities auth.capabilities) (record {
                    version_fits = modern;
                    name_allowed = public_;
                    has_secret = secret;
                    signed = double_negated _ signature;
                  }))))

    gate-IsSound :
        (r : Option ModernReason)
        → requires_modern_client_for_advanced_features auth.version auth response.tunnels ≡ r
        → IsSound auth (gate settings server incoming auth response clock r)
    unfolding gate
    gate-IsSound (some reason) e = unchanged
    gate-IsSound none e = verify-IsSound e

  checked-IsSound :
      (auth : Authentication) (clock : Clock) (r : Option TokenResponse)
      → answer auth ≡ r
      → IsSound auth (checked settings server incoming auth clock r)
  unfolding checked
  checked-IsSound auth clock none e = unchanged
  checked-IsSound auth clock (some response) e = gate-IsSound auth response clock e _ refl

  -- A client gets in only where the token function knows it, its version suffices for what its
  -- configuration asks, a public client asks for no sub-domain, and the client's signature is the
  -- HMAC of its time under the secret, which is not empty. A client that is refused, or whose
  -- capabilities make the negotiation panic, leaves the domains and the statistics as they were.
  pub handle_authenticate-IsSound :
      (auth : Authentication) (clock : Clock)
      → IsSound auth (handle_authenticate settings server incoming auth clock)
  unfolding handle_authenticate
  handle_authenticate-IsSound auth clock = checked-IsSound auth clock (answer auth) refl
