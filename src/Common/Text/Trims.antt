-- ===== src/Common/Text/Trims.antt =====
-- What strings.TrimSpace and strings.Split do.
use Prim.Native.Nat.{ℕ}
use mathlib.Core.Path.{◌≡◌, refl}
use mathlib.Core.Bool.{true, false}
use mathlib.Core.List.{[], ◌∷◌, ◌++◌}
use native.Mathlib.Omega.{arith}
use inlets.Common.Tests.{◌==◌}
use inlets.Common.Keys.{Bytes}
use inlets.Common.Lists.{All}
use inlets.Common.Text.{
  is_space, trim_left, trim_right, before_end, trim_space, split, in_front, to_lower, lower,
}

trim_right-before_end :
    (b : ℕ) (s : Bytes) → trim_right s ≡ s → trim_right (before_end b s) ≡ before_end b s
unfolding trim_right before_end
trim_right-before_end b [] h = ground arith
trim_right-before_end b (c ∷ s) h = rw h refl

trim_right_idem : (s : Bytes) → trim_right (trim_right s) ≡ trim_right s
unfolding trim_right
trim_right_idem [] = refl
trim_right_idem (b ∷ s) = trim_right-before_end b (trim_right s) (trim_right_idem s)

-- what is trimmed at the end is so behind its first byte
before_end_tail : (b : ℕ) (r s : Bytes) → before_end b r ≡ b ∷ s → r ≡ s
unfolding before_end
before_end_tail b [] s h = ground arith
before_end_tail b (c ∷ r) s h = cc

trim_left-IsTrimmed : (s : Bytes) → trim_right s ≡ s → trim_right (trim_left s) ≡ trim_left s
unfolding trim_left before_end trim_right
trim_left-IsTrimmed [] h = h
trim_left-IsTrimmed (b ∷ s) h =
    let rest = trim_left-IsTrimmed s (before_end_tail b (trim_right s) s h) in
    ground (arith, rest, h)

trim_left_idem : (s : Bytes) → trim_left (trim_left s) ≡ trim_left s
unfolding trim_left before_end trim_right
trim_left_idem [] = refl
trim_left_idem (b ∷ s) = ground (arith, trim_left_idem s)

pub trim_space_idem : (s : Bytes) → trim_space (trim_space s) ≡ trim_space s
unfolding trim_space
trim_space_idem s =
    rw (trim_left-IsTrimmed (trim_right s) (trim_right_idem s)) (trim_left_idem (trim_right s))

pub to_lower_idem : (s : Bytes) → to_lower (to_lower s) ≡ to_lower s
unfolding to_lower
to_lower_idem [] = refl
to_lower_idem (b ∷ s) =
    let e : lower (lower b) ≡ lower b = ground arith in rw (e, to_lower_idem s) refl

-- no byte of the text is a space
abbrev pub NoSpace : Bytes → Type 0
NoSpace s = All (λ (b : ℕ). is_space b ≡ false) s

trim_right-NoSpace : (s : Bytes) → NoSpace s → trim_right s ≡ s
unfolding trim_right before_end
trim_right-NoSpace [] h = refl
trim_right-NoSpace (b ∷ []) (h, _) = rw h refl
trim_right-NoSpace (b ∷ c ∷ s) (h, hs) = rw (trim_right-NoSpace (c ∷ s) hs) refl

pub trim_space-NoSpace : (s : Bytes) → NoSpace s → trim_space s ≡ s
unfolding trim_space trim_left
trim_space-NoSpace [] h = rw (trim_right-NoSpace [] h) refl
trim_space-NoSpace (b ∷ s) (h, hs) = rw (trim_right-NoSpace (b ∷ s) (h, hs)) (rw h refl)

pub NoSpace-append : (s t : Bytes) → NoSpace s → NoSpace t → NoSpace (s ++ t)
NoSpace-append [] t h g = g
NoSpace-append (b ∷ s) t (h, hs) g = (h, NoSpace-append s t hs g)

-- the separator does not occur
abbrev pub Without : ℕ → Bytes → Type 0
Without sep s = All (λ (b : ℕ). (b == sep) ≡ false) s

pub split-Without : (s : Bytes) (sep : ℕ) → Without sep s → split s sep ≡ s ∷ []
unfolding split in_front
split-Without [] sep h = refl
split-Without (b ∷ s) sep (h, hs) = rw (h, split-Without s sep hs) refl

pub split-append :
    (s t : Bytes) (sep : ℕ)
    → Without sep s
    → (sep == sep) ≡ true
    → split (s ++ (sep ∷ t)) sep ≡ s ∷ split t sep
unfolding split in_front
split-append [] t sep h e = rw e refl
split-append (b ∷ s) t sep (h, hs) e = rw (h, split-append s t sep hs e) refl
