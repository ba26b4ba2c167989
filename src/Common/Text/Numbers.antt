-- ===== src/Common/Text/Numbers.antt =====
-- strconv.Atoi reads back what `%d` prints.
use Prim.Native.Nat.{ℕ, zero, suc, ◌+◌, ◌-◌, ◌*◌, ◌/◌, ◌%◌, ◌^◌, ◌≤◌, ◌<◌}
use mathlib.Core.Path.{◌≡◌, refl, ap, ◌∙◌}
use mathlib.Core.Logic.{◌≢◌, inl, inr}
use mathlib.Core.Bool.{true, false}
use mathlib.Core.Option.{some}
use mathlib.Core.List.{[], ◌∷◌, ◌++◌}
use native.Mathlib.Omega.{arith}
use inlets.Common.Tests.{◌==◌, ltb, Bool-cases, lt→ltb}
use inlets.Common.Keys.{Bytes}
use inlets.Common.Lists.{All}
use inlets.Common.Int.{pos}
use inlets.Common.Text.{all_digits, value_from, digits_below, atoi, decimal, decimal_from}
use inlets.Common.Text.Trims.{NoSpace, Without}

abbrev pub IsDigits : Bytes → Type 0
IsDigits s = All (λ (b : ℕ). (48 ≤ b) × (b ≤ 57)) s

value_from-append :
    (n : ℕ) (s : Bytes) (b : ℕ) → value_from n (s ++ (b ∷ [])) ≡ value_from n s * 10 + (b - 48)
unfolding value_from
value_from-append n [] b = refl
value_from-append n (c ∷ s) b = value_from-append (n * 10 + (c - 48)) s b

IsDigits-append : (s : Bytes) (b : ℕ) → IsDigits s → 48 ≤ b → b ≤ 57 → IsDigits (s ++ (b ∷ []))
IsDigits-append [] b h l u = ((l, u), tt)
IsDigits-append (c ∷ s) b (h, hs) l u = (h, IsDigits-append s b hs l u)

decimal_from-IsDigits : (fuel n : ℕ) → IsDigits (decimal_from fuel n)
unfolding decimal_from
decimal_from-IsDigits zero n = tt
decimal_from-IsDigits (suc fuel) n = elim (Bool-cases (ltb n 10)) [
  | inl e ↦ rw e ((omega arith, ground arith), tt)
  | inr e ↦ rw e (
      IsDigits-append (decimal_from fuel (n / 10)) (48 + n % 10)
        (decimal_from-IsDigits fuel (n / 10)) (omega arith) (omega arith))
]

value_from-decimal_from : (fuel n : ℕ) → n < fuel → value_from 0 (decimal_from fuel n) ≡ n
unfolding decimal_from value_from
value_from-decimal_from zero n h = absurd (omega arith)
value_from-decimal_from (suc fuel) n h = elim (Bool-cases (ltb n 10)) [
  | inl e ↦ rw e (omega arith)
  | inr e ↦
      let le : 10 ≤ n = ground arith in
      rw
        (
          e,
          value_from-append 0 (decimal_from fuel (n / 10)) (48 + n % 10),
          value_from-decimal_from fuel (n / 10) (omega arith),
        )
        (omega arith)
]

pub all_digits-IsDigits : (s : Bytes) → IsDigits s → all_digits s ≡ true
unfolding all_digits
all_digits-IsDigits [] h = refl
all_digits-IsDigits (b ∷ s) (h, hs) = ground (arith, all_digits-IsDigits s hs)

pub IsDigits-NoSpace : (s : Bytes) → IsDigits s → NoSpace s
IsDigits-NoSpace [] h = tt
IsDigits-NoSpace (b ∷ s) (h, hs) = (ground arith, IsDigits-NoSpace s hs)

pub IsDigits-Without : (sep : ℕ) (s : Bytes) → 57 < sep → IsDigits s → Without sep s
IsDigits-Without sep [] l h = tt
IsDigits-Without sep (b ∷ s) l (h, hs) = (ground arith, IsDigits-Without sep s l hs)

digit_no_sign : (b sign : ℕ) → (48 ≤ b) × (b ≤ 57) → sign < 48 → (b == sign) ≡ false
digit_no_sign b sign h l = ground arith

append_some : (s : Bytes) (c : ℕ) → s ++ (c ∷ []) ≢ []
append_some [] c e = cc
append_some (b ∷ s) c e = cc

pub atoi-IsDigits :
    (s : Bytes)
    → IsDigits s
    → s ≢ []
    → value_from 0 s < 2 ^ 63
    → atoi s ≡ some (pos (value_from 0 s))
unfolding atoi digits_below
atoi-IsDigits [] h n l = absurd (n refl)
atoi-IsDigits (b ∷ s) (h, hs) _ l =
    let n : ℕ = value_from 0 (b ∷ s) in
    rw
      (
        digit_no_sign b 45 h (omega arith),
        digit_no_sign b 43 h (omega arith),
        all_digits-IsDigits (b ∷ s) (h, hs),
        lt→ltb n (2 ^ 63) l,
      )
      refl

pub value_from-decimal : (n : ℕ) → value_from 0 (decimal n) ≡ n
unfolding decimal
value_from-decimal n = value_from-decimal_from (suc n) n (omega arith)

pub decimal-IsDigits : (n : ℕ) → IsDigits (decimal n)
unfolding decimal
decimal-IsDigits n = decimal_from-IsDigits (suc n) n

pub decimal_some : (n : ℕ) → decimal n ≢ []
unfolding decimal decimal_from
decimal_some n e = elim (Bool-cases (ltb n 10)) [
  | inl l ↦ ground (arith, e)
  | inr l ↦ ground (arith, e, append_some (decimal_from n (n / 10)) (48 + n % 10))
]

pub atoi-decimal : (n : ℕ) → n < 2 ^ 63 → atoi (decimal n) ≡ some (pos n)
atoi-decimal n l =
    let v = value_from-decimal n in
    atoi-IsDigits (decimal n) (decimal-IsDigits n) (decimal_some n) (rw v l)
    ∙ ap (λ (k : ℕ). some (pos k)) v
