-- ===== src/Common/Dict.antt =====
-- Go's `map[K]V` as an association list; the order of iteration is that of the list.
use mathlib.Core.Path.{◌≡◌, refl}
use mathlib.Core.Logic.{ite}
use mathlib.Core.Option.{Option, none, some}
use mathlib.Core.List.{List, [], ◌∷◌}
use native.Mathlib.Omega.{arith}
use Prim.Native.Nat.{◌≤◌, ◌<◌}
use inlets.Common.Keys.{Key}
use inlets.Common.Lists.{length}

abbrev pub Dict {ℓ} : Type ℓ → Type ℓ → Type ℓ
Dict K V = List (K × V)

module _ {ℓ} {K V : Type ℓ} ⦃e : Key K⦄ where
  unfoldable pub get : K → Dict K V → Option V
  get k [] = none
  get k ((j, v) ∷ m) = ite (e.dec j k) (some v) (get k m)

  unfoldable pub put : K → V → Dict K V → Dict K V
  put k v [] = (k, v) ∷ []
  put k v ((j, w) ∷ m) = ite (e.dec j k) ((k, v) ∷ m) ((j, w) ∷ put k v m)

  unfoldable pub remove : K → Dict K V → Dict K V
  remove k [] = []
  remove k ((j, w) ∷ m) = let rest = remove k m in ite (e.dec j k) rest ((j, w) ∷ rest)

  pub get-put :
      (k j : K) (v : V) (m : Dict K V) → get j (put k v m) ≡ ite (e.dec k j) (some v) (get j m)
  unfolding get put
  get-put k j v [] = refl
  get-put k j v ((i, w) ∷ m) = ground (arith, get-put k j v m)

  pub get-remove : (k j : K) (m : Dict K V) → get j (remove k m) ≡ ite (e.dec k j) none (get j m)
  unfolding get remove
  get-remove k j [] = ground arith
  get-remove k j ((i, w) ∷ m) = ground (arith, get-remove k j m)

  pub get-empty : (k : K) → get k (let m : Dict K V = [] in m) ≡ none
  unfolding get
  get-empty k = refl

  pub length-remove_le : (k : K) (m : Dict K V) → length (remove k m) ≤ length m
  unfolding remove
  length-remove_le k [] = omega arith
  length-remove_le k ((j, w) ∷ m) = ground (arith, length-remove_le k m)

  pub length-remove_lt :
      (k : K) (v : V) (m : Dict K V) → get k m ≡ some v → length (remove k m) < length m
  unfolding get remove
  length-remove_lt k v [] h = cc
  length-remove_lt k v ((j, w) ∷ m) h = ground (arith, length-remove_le k m, length-remove_lt k v m)
