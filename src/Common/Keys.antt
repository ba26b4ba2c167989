-- ===== src/Common/Keys.antt =====
-- Keys of maps: an instance decides their equality. A Go string is the list of its bytes.
use Prim.Native.Nat.{ℕ}
use Prim.Native.Char.{code}
use Prim.Native.String.{String}
use mathlib.Core.Path.{refl}
use mathlib.Core.List.{List, [], ◌∷◌}
use native.Mathlib.Decide.{ℕ_discrete}

pub record Key {ℓ} (K : Type ℓ) : Type ℓ where
  pub dec : Discrete K

instance abbrev pub ℕ_key : Key ℕ
ℕ_key = record { dec = ℕ_discrete }

abbrev pub Bytes : Type 0
Bytes = List ℕ

unfoldable pub Bytes-discrete : Discrete Bytes
Bytes-discrete [] [] = yes refl
Bytes-discrete [] (y ∷ ys) = no (λ e. cc)
Bytes-discrete (x ∷ xs) [] = no (λ e. cc)
Bytes-discrete (x ∷ xs) (y ∷ ys) = elim (ℕ_discrete x y) [
  | yes p ↦ elim (Bytes-discrete xs ys) [ yes q ↦ yes (cc) | no n ↦ no (λ e. n (cc)) ]
  | no n ↦ no (λ e. n (cc))
]

instance abbrev pub bytes_key : Key Bytes
bytes_key = record { dec = Bytes-discrete }

-- The bytes of an ASCII text.
abbrev pub codes : String → Bytes
codes String.[] = []
codes (String.◌∷◌ c s) = code c ∷ codes s
