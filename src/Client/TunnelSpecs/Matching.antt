-- ===== src/Client/TunnelSpecs/Matching.antt =====
-- What is taken over from a tunnel spec matches that spec.
use inlets.Common.{
  ℕ, ◌≡◌, ℕ_discrete, refl, ap, sym, ◌∙◌, subst, inl, inr, [], Bool, true, false, ◌||◌, not, Bytes,
  Bytes-discrete, arith, if_elim, if_case, Bool-cases, Outcome, ok, err, panic,
}
use inlets.Common.Int.{ℤ, pos, eqb_ℤ, eqb_ℤ_refl}
use inlets.Common.Text.{
  trim_space, trim_left, trim_right, before_end, to_lower, same_text, equal_fold, is_blank,
}
use inlets.Common.Text.Trims.{trim_space_idem}
use inlets.Client.{TunnelSpec, Authentication, Options}
use inlets.Client.Upstream.{UpstreamError, parse_upstream}
use inlets.Client.TunnelSpecs.{
  SpecError, http, tcp, spec_type, is_tunnel_type, in_port_range, named_or, choose_port,
  set_tunnel_port, set_option_port, http_fields, tcp_fields, http_options, tcp_options,
  apply_fields, apply_spec, same_tunnel, matches, snapshot, tunnel_port_from_options, sync_fields,
  sync_spec, child_base, child_fields, apply_at, sync_at, child_at, child_options,
}

same_text_lem : (a b : Bytes) → same_text a b ≡ true → a ≡ b
unfolding same_text
same_text_lem a b h = ground arith

same_text_refl : (a : Bytes) → same_text a a ≡ true
unfolding same_text
same_text_refl a = ground arith

lower_http : to_lower (trim_space http) ≡ http
unfolding to_lower trim_space trim_left trim_right before_end
lower_http = refl

lower_tcp : to_lower (trim_space tcp) ≡ tcp
unfolding to_lower trim_space trim_left trim_right before_end
lower_tcp = refl

tunnel_type_lem : (t : Bytes) → is_tunnel_type t ≡ true → to_lower (trim_space t) ≡ t
tunnel_type_lem t h = elim (Bool-cases (same_text t http)) [
  | inl e ↦ let eq = same_text_lem t http e in rw eq lower_http
  | inr e ↦ let eq = same_text_lem t tcp (ground (arith, h, e)) in rw eq lower_tcp
]

module _ (spec : TunnelSpec) (host : Bytes) (port : ℕ) where
  matches_lem :
      (auth : Authentication)
      → is_tunnel_type (spec_type spec) ≡ true
      → parse_upstream spec.upstream ≡ ok (host, port)
      → auth.type ≡ spec_type spec
      → same_tunnel auth spec port ≡ true
      → matches auth spec ≡ true
  unfolding matches
  matches_lem auth t p e s =
      let same =
        ap (λ (x : Bytes). to_lower (trim_space x)) e ∙ tunnel_type_lem (spec_type spec) t in
      rw (same, same_text_refl (spec_type spec), t, p) s

  named_or_same :
      (s old : Bytes)
      → (is_blank (trim_space s) || same_text (trim_space s) (trim_space (named_or s old))) ≡ true
  unfolding named_or
  named_or_same s old = elim (Bool-cases (is_blank (trim_space s))) [
    | inl e ↦ rw e refl
    | inr e ↦ rw (e, trim_space_idem s) (same_text_refl (trim_space s))
  ]

  trimmed_same :
      (s : Bytes)
      → (is_blank (trim_space s) || same_text (trim_space s) (trim_space (trim_space s))) ≡ true
  trimmed_same s = elim (Bool-cases (is_blank (trim_space s))) [
    | inl e ↦ rw e refl
    | inr e ↦ rw (e, trim_space_idem s) (same_text_refl (trim_space s))
  ]

  choose_port_same :
      (asked p : ℤ)
      → choose_port spec asked ≡ ok p
      → (not (in_port_range spec.remote_port) || eqb_ℤ spec.remote_port p) ≡ true
  unfolding choose_port
  choose_port_same asked p h =
      if_elim (in_port_range spec.remote_port) h
        (λ t e.
          let same : spec.remote_port ≡ p = cc in rw (t, sym same) (eqb_ℤ_refl spec.remote_port))
        (λ f e. rw f refl)

  -- TCP is what is left when HTTP is not meant
  not_http :
      is_tunnel_type (spec_type spec) ≡ true
      → same_text (spec_type spec) http ≡ false
      → spec_type spec ≡ tcp
  not_http t f = same_text_lem (spec_type spec) tcp (ground (arith, t, f))

  -- the authentication asks for this tunnel
  abbrev IsFor : Authentication → Type 0
  IsFor auth = (auth.type ≡ spec_type spec) × (same_tunnel auth spec port ≡ true)

  http_tunnel_same :
      (auth : Authentication)
      → eqb_ℤ (pos port) auth.port ≡ true
      → same_text (spec_type spec) http ≡ true
      → (is_blank (trim_space spec.sub_domain)
          || same_text (trim_space spec.sub_domain) (trim_space auth.sub_domain))
        ≡ true
      → same_tunnel auth spec port ≡ true
  unfolding same_tunnel
  http_tunnel_same auth p e s = rw (p, e) s

  tcp_tunnel_same :
      (auth : Authentication)
      → eqb_ℤ (pos port) auth.port ≡ true
      → same_text (spec_type spec) http ≡ false
      → (not (in_port_range spec.remote_port) || eqb_ℤ spec.remote_port auth.tunnel_port) ≡ true
      → same_tunnel auth spec port ≡ true
  unfolding same_tunnel
  tcp_tunnel_same auth p e s = rw (p, e) s

  -- a change that succeeds leaves what asks for this tunnel
  abbrev AppliedWell : Authentication × Outcome SpecError (Unit {0}) → Type 0
  AppliedWell r = r.1 ≡ ok tt → IsFor r.0

  set_tunnel_port-AppliedWell :
      (auth : Authentication) (r : Outcome SpecError ℤ)
      → ((p : ℤ)
          → r ≡ ok p
          → (not (in_port_range spec.remote_port) || eqb_ℤ spec.remote_port p) ≡ true)
      → eqb_ℤ (pos port) auth.port ≡ true
      → same_text (spec_type spec) http ≡ false
      → auth.type ≡ spec_type spec
      → AppliedWell (set_tunnel_port auth r)
  set_tunnel_port-AppliedWell auth (ok p) same e f t h =
      (t, tcp_tunnel_same (record auth { tunnel_port = p }) e f (same p refl))
  set_tunnel_port-AppliedWell auth (err e) same q f t h = absurd (cc)
  set_tunnel_port-AppliedWell auth panic same q f t h = absurd (cc)

  apply_fields-AppliedWell : (auth : Authentication) → AppliedWell (apply_fields auth spec port)
  unfolding apply_fields http_fields tcp_fields
  apply_fields-AppliedWell auth =
      if_case AppliedWell (same_text (spec_type spec) http) _ _
        (λ e h. (
          refl,
          http_tunnel_same (http_fields auth spec port) (eqb_ℤ_refl (pos port)) e
              (named_or_same spec.sub_domain auth.sub_domain),
        ))
        (λ e.
          set_tunnel_port-AppliedWell (tcp_fields auth spec port) _
            (choose_port_same auth.tunnel_port) (eqb_ℤ_refl (pos port)) e refl)

  abbrev SyncedWell : Options × Outcome SpecError (Unit {0}) → Type 0
  SyncedWell r = r.1 ≡ ok tt → IsFor (snapshot r.0)

  snapshot_port : (o : Options) → o.type ≡ tcp → (snapshot o).tunnel_port ≡ o.tunnel_port
  unfolding snapshot tunnel_port_from_options equal_fold same_text to_lower Bytes-discrete
      ℕ_discrete
  snapshot_port o e = rw e refl

  set_option_port-SyncedWell :
      (o : Options) (r : Outcome SpecError ℤ)
      → ((p : ℤ)
          → r ≡ ok p
          → (not (in_port_range spec.remote_port) || eqb_ℤ spec.remote_port p) ≡ true)
      → eqb_ℤ (pos port) o.upstream_port ≡ true
      → same_text (spec_type spec) http ≡ false
      → spec_type spec ≡ tcp
      → o.type ≡ spec_type spec
      → SyncedWell (set_option_port o r)
  unfolding snapshot
  set_option_port-SyncedWell o (ok p) same e f tcp_ t h =
      let o' = record o { tunnel_port = p } in
      let port_ = snapshot_port o' (t ∙ tcp_) in
      (t, tcp_tunnel_same (snapshot o') e f (rw port_ (same p refl)))
  set_option_port-SyncedWell o (err e) same q f u t h = absurd (cc)
  set_option_port-SyncedWell o panic same q f u t h = absurd (cc)

  sync_fields-SyncedWell :
      (o : Options)
      → is_tunnel_type (spec_type spec) ≡ true
      → SyncedWell (sync_fields o spec host port)
  unfolding sync_fields http_options tcp_options snapshot
  sync_fields-SyncedWell o t =
      if_case SyncedWell (same_text (spec_type spec) http) _ _
        (λ e h. (
          refl,
          http_tunnel_same (snapshot (http_options o spec host port)) (eqb_ℤ_refl (pos port)) e
              (named_or_same spec.sub_domain o.sub_domain),
        ))
        (λ e.
          set_option_port-SyncedWell (tcp_options o spec host port) _
            (choose_port_same o.tunnel_port) (eqb_ℤ_refl (pos port)) e (not_http t e) refl)

  abbrev ChildWell : Outcome SpecError Options → Type 0
  ChildWell r = (o : Options) → r ≡ ok o → IsFor (snapshot o)

  ChildWell-ok : (o : Options) → IsFor (snapshot o) → ChildWell (ok o)
  ChildWell-ok o h o' e = let eq : o ≡ o' = cc in subst (λ (x : Options). IsFor (snapshot x)) eq h

  child_fields-ChildWell :
      (base : Options)
      → is_tunnel_type (spec_type spec) ≡ true
      → ChildWell (child_fields (child_base base spec host port) spec)
  unfolding child_fields child_base snapshot
  child_fields-ChildWell base t =
      let o = child_base base spec host port in
      if_case ChildWell (same_text (spec_type spec) http) _ _
        (λ e.
          ChildWell-ok (record o { tunnel_port = pos 0 })
            (
              refl,
              http_tunnel_same (snapshot (record o { tunnel_port = pos 0 })) (eqb_ℤ_refl (pos port))
                  e (trimmed_same spec.sub_domain),
            ))
        (λ e.
          let o' = record o { sub_domain = []; tunnel_port = spec.remote_port } in
          if_case ChildWell (in_port_range spec.remote_port) _ _
            (λ f. ChildWell-ok o' (
              refl,
              tcp_tunnel_same (snapshot o') (eqb_ℤ_refl (pos port)) e
                  (rw (f, snapshot_port o' (not_http t e)) (eqb_ℤ_refl spec.remote_port)),
            ))
            (λ f.
              if_case ChildWell (eqb_ℤ spec.remote_port (pos 0)) _ _ (λ g x h. absurd (cc))
                (λ g x h. absurd (cc))))

-- A change that succeeds leaves an authentication that matches the spec.
abbrev AppliedRight : TunnelSpec → Authentication × Outcome SpecError (Unit {0}) → Type 0
AppliedRight spec r = r.1 ≡ ok tt → matches r.0 spec ≡ true

apply_at-AppliedRight :
    (auth : Authentication) (spec : TunnelSpec) (r : Outcome UpstreamError (Bytes × ℕ))
    → parse_upstream spec.upstream ≡ r
    → is_tunnel_type (spec_type spec) ≡ true
    → AppliedRight spec (apply_at auth spec r)
unfolding apply_at
apply_at-AppliedRight auth spec (ok (host, port)) p t h =
    let (type, same) = apply_fields-AppliedWell spec host port auth h in
    matches_lem spec host port _ t p type same
apply_at-AppliedRight auth spec (err e) p t h = absurd (cc)
apply_at-AppliedRight auth spec panic p t h = absurd (cc)

type_known : (b : Bool) → not b ≡ false → b ≡ true
type_known b h = ground arith

-- Where ApplyTunnelSpecToAuthentication returns no error, the authentication that it leaves matches
-- the spec that it was given, as tunnelSpecMatchesAuth tests it.
pub apply_spec-matches :
    (auth : Authentication) (spec : TunnelSpec)
    → (apply_spec auth spec).1 ≡ ok tt
    → matches (apply_spec auth spec).0 spec ≡ true
unfolding apply_spec
apply_spec-matches auth spec =
    if_case (AppliedRight spec) (not (is_tunnel_type (spec_type spec))) _ _ (λ e h. absurd (cc))
      (λ e. apply_at-AppliedRight auth spec _ refl (type_known _ e))

abbrev SyncedRight : TunnelSpec → Options × Outcome SpecError (Unit {0}) → Type 0
SyncedRight spec r = r.1 ≡ ok tt → matches (snapshot r.0) spec ≡ true

sync_at-SyncedRight :
    (o : Options) (spec : TunnelSpec) (r : Outcome UpstreamError (Bytes × ℕ))
    → parse_upstream spec.upstream ≡ r
    → SyncedRight spec (sync_at o spec r)
unfolding sync_at
sync_at-SyncedRight o spec (ok (host, port)) p =
    if_case (SyncedRight spec) (not (is_tunnel_type (spec_type spec))) _ _ (λ e h. absurd (cc))
      (λ e h.
        let t = type_known _ e in
        let (type, same) = sync_fields-SyncedWell spec host port o t h in
        matches_lem spec host port _ t p type same)
sync_at-SyncedRight o spec (err e) p = λ h. absurd (cc)
sync_at-SyncedRight o spec panic p = λ h. absurd (cc)

-- Where SyncOptsFromTunnelSpec returns no error, what the client asks for with the options that it
-- leaves matches the spec.
pub sync_spec-matches :
    (o : Options) (spec : TunnelSpec)
    → (sync_spec o spec).1 ≡ ok tt
    → matches (snapshot (sync_spec o spec).0) spec ≡ true
unfolding sync_spec
sync_spec-matches o spec = sync_at-SyncedRight o spec _ refl

abbrev ChildRight : TunnelSpec → Outcome SpecError Options → Type 0
ChildRight spec r = (o : Options) → r ≡ ok o → matches (snapshot o) spec ≡ true

child_at-ChildRight :
    (base : Options) (spec : TunnelSpec) (r : Outcome UpstreamError (Bytes × ℕ))
    → parse_upstream spec.upstream ≡ r
    → is_tunnel_type (spec_type spec) ≡ true
    → ChildRight spec (child_at base spec r)
unfolding child_at
child_at-ChildRight base spec (ok (host, port)) p t o h =
    let (type, same) = child_fields-ChildWell spec host port base t o h in
    matches_lem spec host port (snapshot o) t p type same
child_at-ChildRight base spec (err e) p t o h = absurd (cc)
child_at-ChildRight base spec panic p t o h = absurd (cc)

-- The options that ChildOptionsFromSpec makes of a tunnel spec ask for a tunnel that matches this
-- spec: the server, which looks for the spec of an authentication by tunnelSpecMatchesAuth, finds
-- that the new session fits the spec it was started for.
pub child_options-matches :
    (base : Options) (spec : TunnelSpec) (o : Options)
    → child_options base spec ≡ ok o
    → matches (snapshot o) spec ≡ true
unfolding child_options
child_options-matches base spec o =
    if_case (ChildRight spec) (not (is_tunnel_type (spec_type spec))) _ _ (λ e o' h. absurd (cc))
      (λ e. child_at-ChildRight base spec _ refl (type_known _ e)) o
