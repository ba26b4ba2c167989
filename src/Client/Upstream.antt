-- ===== src/Client/Upstream.antt =====
-- internal/client/upstream.go: ParseUpstream.
pub mod Addresses
use inlets.Common.{
  ℕ, List, [], ◌∷◌, Bool, true, false, ◌&&◌, Option, none, some, Bytes, codes, leb, if◌then◌else◌,
  Outcome, ok, err,
}
use inlets.Common.Int.{ℤ, pos, negsuc}
use inlets.Common.Text.{trim_space, all_digits, atoi, split}

pub data UpstreamError : Type 0 where
  empty_upstream : UpstreamError
  invalid_upstream_port : Bytes → UpstreamError
  not_port_or_host_port : UpstreamError
  invalid_port_in_upstream : Bytes → UpstreamError

-- 127.0.0.1
abbrev pub localhost : Bytes
localhost = codes "127.0.0.1"

-- the number, if it is a port
abbrev pub port_in_range : Option ℤ → Option ℕ
port_in_range none = none
port_in_range (some (negsuc n)) = none
port_in_range (some (pos n)) = if leb 1 n && leb n 65535 then some n else none

unfoldable pub with_host : Bytes → Option ℕ → UpstreamError → Outcome UpstreamError (Bytes × ℕ)
with_host host none e = err e
with_host host (some port) e = ok (host, port)

abbrev host_or_default : Bytes → Bytes
host_or_default [] = localhost
host_or_default (b ∷ s) = b ∷ s

unfoldable pub parse_host_port : Bytes → List Bytes → Outcome UpstreamError (Bytes × ℕ)
parse_host_port upstream (host ∷ port ∷ []) =
    with_host (host_or_default (trim_space host)) (port_in_range (atoi (trim_space port)))
      (invalid_port_in_upstream upstream)
parse_host_port upstream [] = err not_port_or_host_port
parse_host_port upstream (host ∷ []) = err not_port_or_host_port
parse_host_port upstream (host ∷ port ∷ part ∷ parts) = err not_port_or_host_port

unfoldable pub parse_trimmed : Bytes → Outcome UpstreamError (Bytes × ℕ)
parse_trimmed [] = err empty_upstream
parse_trimmed (b ∷ s) =
    if all_digits (b ∷ s)
    then with_host localhost (port_in_range (atoi (b ∷ s))) (invalid_upstream_port (b ∷ s))
    else parse_host_port (b ∷ s) (split (b ∷ s) 58)

unfoldable pub parse_upstream : Bytes → Outcome UpstreamError (Bytes × ℕ)
parse_upstream upstream = parse_trimmed (trim_space upstream)
