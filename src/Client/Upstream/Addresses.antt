-- ===== src/Client/Upstream/Addresses.antt =====
-- What ParseUpstream makes of an address.
use inlets.Common.{
  ℕ, ◌≡◌, ◌≢◌, ◌≤◌, refl, subst, List, [], ◌∷◌, ◌++◌, false, Option, none, some, Bytes, arith,
  if◌then◌else◌, ok, if_elim,
}
use inlets.Common.Int.{ℤ, pos, negsuc}
use inlets.Common.Text.{trim_space, all_digits, atoi, split, decimal}
use inlets.Common.Text.Trims.{
  NoSpace, Without, trim_space-NoSpace, NoSpace-append, split-Without, split-append,
}
use inlets.Common.Text.Numbers.{
  decimal-IsDigits, IsDigits-NoSpace, IsDigits-Without, atoi-decimal, all_digits-IsDigits,
  decimal_some,
}
use inlets.Client.Upstream.{
  UpstreamError, localhost, port_in_range, with_host, parse_host_port, parse_trimmed,
  parse_upstream, host_or_default,
}

-- a text without a colon, then a colon
all_digits-append : (s t : Bytes) → all_digits (s ++ (58 ∷ t)) ≡ false
unfolding all_digits
all_digits-append [] t = refl
all_digits-append (b ∷ s) t = rw (all_digits-append s t) (ground arith)

port_in_range_lem : (n : ℕ) → 1 ≤ n → n ≤ 65535 → port_in_range (some (pos n)) ≡ some n
port_in_range_lem n l u = ground arith

host_or_default_lem : (host : Bytes) → host ≢ [] → host_or_default host ≡ host
host_or_default_lem [] h = absurd (h refl)
host_or_default_lem (b ∷ host) h = refl

parse_trimmed_lem :
    (s : Bytes)
    → s ≢ []
    → parse_trimmed s ≡ (
        if all_digits s
        then with_host localhost (port_in_range (atoi s)) (UpstreamError.invalid_upstream_port s)
        else parse_host_port s (split s 58))
unfolding parse_trimmed
parse_trimmed_lem [] h = absurd (h refl)
parse_trimmed_lem (b ∷ s) h = refl

some_append : (s t : Bytes) (c : ℕ) → s ++ (c ∷ t) ≢ []
some_append [] t c e = cc
some_append (b ∷ s) t c e = cc

module _ (n : ℕ) (l : 1 ≤ n) (u : n ≤ 65535) where
  port_of_decimal : port_in_range (atoi (decimal n)) ≡ some n
  port_of_decimal = let e = atoi-decimal n (omega arith) in rw e (port_in_range_lem n l u)

  parse-decimal : parse_upstream (decimal n) ≡ ok (localhost, n)
  unfolding parse_upstream with_host
  parse-decimal =
      let d = decimal-IsDigits n in
      rw
        (
          trim_space-NoSpace (decimal n) (IsDigits-NoSpace (decimal n) d),
          parse_trimmed_lem (decimal n) (decimal_some n),
          all_digits-IsDigits (decimal n) d,
          port_of_decimal,
        )
        refl

  parse-host :
      (host : Bytes)
      → NoSpace host
      → Without 58 host
      → host ≢ []
      → parse_upstream (host ++ (58 ∷ decimal n)) ≡ ok (host, n)
  unfolding parse_upstream parse_host_port with_host
  parse-host host clean h full =
      let d = decimal-IsDigits n in
      let ds = IsDigits-NoSpace (decimal n) d in
      rw
        (
          trim_space-NoSpace _ (NoSpace-append host (58 ∷ decimal n) clean (refl, ds)),
          parse_trimmed_lem _ (some_append host (decimal n) 58),
          all_digits-append host (decimal n),
          split-append host (decimal n) 58 h refl,
          split-Without (decimal n) 58 (IsDigits-Without 58 (decimal n) (omega arith) d),
          trim_space-NoSpace host clean,
          host_or_default_lem host full,
          trim_space-NoSpace (decimal n) ds,
          port_of_decimal,
        )
        refl

-- An address that is printed as `port` or as `host:port`, with a port from 1 to 65535 and a host
-- that is not empty and has neither a colon nor white space in it, is read back as that host, or
-- as 127.0.0.1, and that port.
pub parse_upstream-decimal :
    (host : Bytes) (n : ℕ)
    → NoSpace host
    → Without 58 host
    → host ≢ []
    → 1 ≤ n
    → n ≤ 65535
    → (parse_upstream (host ++ (58 ∷ decimal n)) ≡ ok (host, n))
      × (parse_upstream (decimal n) ≡ ok (localhost, n))
parse_upstream-decimal host n clean h full l u =
    (parse-host n l u host clean h full, parse-decimal n l u)

abbrev pub IsAddress : Bytes × ℕ → Type 0
IsAddress (host, n) = (host ≢ []) × (1 ≤ n) × (n ≤ 65535)

port_in_range_bounds : (o : Option ℤ) (n : ℕ) → port_in_range o ≡ some n → (1 ≤ n) × (n ≤ 65535)
port_in_range_bounds none n h = cc
port_in_range_bounds (some (negsuc k)) n h = cc
port_in_range_bounds (some (pos k)) n h = (ground arith, ground arith)

host_or_default_some : (host : Bytes) → host_or_default host ≢ []
host_or_default_some [] e = cc
host_or_default_some (b ∷ host) e = cc

with_host-IsAddress :
    (host : Bytes) (o : Option ℕ) (e : UpstreamError) (r : Bytes × ℕ)
    → host ≢ []
    → ((n : ℕ) → o ≡ some n → (1 ≤ n) × (n ≤ 65535))
    → with_host host o e ≡ ok r
    → IsAddress r
unfolding with_host
with_host-IsAddress host none e r full p h = absurd (cc)
with_host-IsAddress host (some n) e r full p h =
    let g : (host, n) ≡ r = cc in subst IsAddress g (full, (p n refl).0, (p n refl).1)

parse_host_port-IsAddress :
    (s : Bytes) (parts : List Bytes) (r : Bytes × ℕ) → parse_host_port s parts ≡ ok r → IsAddress r
unfolding parse_host_port
parse_host_port-IsAddress s [] r h = absurd (cc)
parse_host_port-IsAddress s (host ∷ []) r h = absurd (cc)
parse_host_port-IsAddress s (host ∷ port ∷ []) r h =
    with_host-IsAddress _ _ _ r (host_or_default_some (trim_space host))
      (port_in_range_bounds (atoi (trim_space port))) h
parse_host_port-IsAddress s (host ∷ port ∷ part ∷ parts) r h = absurd (cc)

localhost_some : localhost ≢ []
localhost_some e = cc

parse_trimmed-IsAddress : (s : Bytes) (r : Bytes × ℕ) → parse_trimmed s ≡ ok r → IsAddress r
unfolding parse_trimmed
parse_trimmed-IsAddress [] r h = absurd (cc)
parse_trimmed-IsAddress (b ∷ s) r h =
    if_elim (all_digits (b ∷ s)) h
      (λ e.
        with_host-IsAddress localhost _ _ r localhost_some (port_in_range_bounds (atoi (b ∷ s))))
      (λ e. parse_host_port-IsAddress (b ∷ s) (split (b ∷ s) 58) r)

-- Whatever text ParseUpstream accepts, it returns a host that is not empty and a port from 1 to
-- 65535.
pub parse_upstream-IsAddress :
    (upstream : Bytes) (r : Bytes × ℕ) → parse_upstream upstream ≡ ok r → IsAddress r
unfolding parse_upstream
parse_upstream-IsAddress upstream r h = parse_trimmed-IsAddress (trim_space upstream) r h
