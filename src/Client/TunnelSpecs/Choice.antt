-- ===== src/Client/TunnelSpecs/Choice.antt =====
-- Which tunnel spec MatchTunnelSpecIndex chooses.
use inlets.Common.{
  ℕ, zero, suc, ◌≡◌, ◌+◌, ◌<◌, refl, inl, inr, List, [], ◌∷◌, true, false, some, arith, get_elem?,
  Bool-cases,
}
use inlets.Common.Int.{ℤ, pos, negsuc}
use inlets.Client.{TunnelSpec, Authentication}
use inlets.Client.TunnelSpecs.{
  matches, tunnel_spec_matches_auth, first_match, match_tunnel_spec_index,
}

module _ (auth : Authentication) where
  abbrev pub NoneBefore : List TunnelSpec → ℕ → Type 0
  NoneBefore specs i =
      (j : ℕ) (spec : TunnelSpec)
      → j < i
      → get_elem? specs j ≡ some spec
      → matches auth spec ≡ false

  -- `r` is the index of the first spec that matches, counted from `k`, or else -1
  abbrev pub IsFirst : List TunnelSpec → ℕ → ℤ → Type 0
  IsFirst specs k (pos n) =
      (i : ℕ) × (spec : TunnelSpec) × (n ≡ k + i)
      × (get_elem? specs i ≡ some spec)
      × (matches auth spec ≡ true)
      × NoneBefore specs i
  IsFirst specs k (negsuc n) =
      (n ≡ 0)
      × ((j : ℕ) (spec : TunnelSpec) → get_elem? specs j ≡ some spec → matches auth spec ≡ false)

  NoneBefore-suc :
      (spec : TunnelSpec) (specs : List TunnelSpec) (i : ℕ)
      → matches auth spec ≡ false
      → NoneBefore specs i
      → NoneBefore (spec ∷ specs) (suc i)
  NoneBefore-suc spec specs i h hs zero s l e = let same : spec ≡ s = cc in ground (arith, h)
  NoneBefore-suc spec specs i h hs (suc j) s l e = hs j s (omega arith) e

  abbrev Others : List TunnelSpec → Type 0
  Others specs =
      (j : ℕ) (spec : TunnelSpec) → get_elem? specs j ≡ some spec → matches auth spec ≡ false

  Others-suc :
      (spec : TunnelSpec) (specs : List TunnelSpec)
      → matches auth spec ≡ false
      → Others specs
      → Others (spec ∷ specs)
  Others-suc spec specs h hs zero s e = let same : spec ≡ s = cc in ground (arith, h)
  Others-suc spec specs h hs (suc j) s e = hs j s e

  IsFirst-suc :
      (spec : TunnelSpec) (specs : List TunnelSpec) (k : ℕ) (r : ℤ)
      → matches auth spec ≡ false
      → IsFirst specs (suc k) r
      → IsFirst (spec ∷ specs) k r
  IsFirst-suc spec specs k (pos n) h (i, s, e, at, m, before) =
      (suc i, s, omega arith, at, m, NoneBefore-suc spec specs i h before)
  IsFirst-suc spec specs k (negsuc n) h (z, others) = (z, Others-suc spec specs h others)

  first_match-IsFirst :
      (specs : List TunnelSpec) (k : ℕ) → IsFirst specs k (first_match auth specs k)
  unfolding first_match tunnel_spec_matches_auth
  first_match-IsFirst [] k = (refl, λ j spec e. cc)
  first_match-IsFirst (spec ∷ specs) k = elim (Bool-cases (matches auth spec)) [
    | inl h ↦ rw h (0, spec, omega arith, refl, h, λ j s l e. absurd (omega arith))
    | inr h ↦ rw h (IsFirst-suc spec specs k _ h (first_match-IsFirst specs (suc k)))
  ]

-- MatchTunnelSpecIndex returns the index of the first spec that matches, so that none before it
-- does, or -1, and then none of them matches.
pub match_tunnel_spec_index-IsFirst :
    (auth : Authentication) (specs : List TunnelSpec)
    → IsFirst auth specs 0 (match_tunnel_spec_index (some auth) specs)
unfolding match_tunnel_spec_index
match_tunnel_spec_index-IsFirst auth specs = first_match-IsFirst auth specs 0
