-- ===== src/Common/Text.antt =====
-- What the program uses of Go's `strings` and `strconv`, on the bytes of a text. Letters and white
-- space are those of ASCII.
pub mod Trims
pub mod Numbers
use Prim.Native.Nat.{ℕ, zero, suc, ◌+◌, ◌-◌, ◌*◌, ◌/◌, ◌%◌, ◌^◌}
use mathlib.Core.Bool.{Bool, true, false, ◌&&◌, ◌||◌}
use mathlib.Core.Option.{Option, none, some}
use mathlib.Core.List.{List, [], ◌∷◌, ◌++◌}
use mathlib.Core.Logic.{ite}
use inlets.Common.Tests.{leb, ltb, ◌==◌, if◌then◌else◌}
use inlets.Common.Keys.{Bytes, Bytes-discrete}
use inlets.Common.Int.{ℤ, pos, negsuc}

-- the letters from A to Z become small
abbrev pub lower : ℕ → ℕ
lower b = if leb 65 b && leb b 90 then b + 32 else b

-- strings.ToLower
unfoldable pub to_lower : Bytes → Bytes
to_lower [] = []
to_lower (b ∷ s) = lower b ∷ to_lower s

-- the space and the characters from tab to carriage return
abbrev pub is_space : ℕ → Bool
is_space b = b == 32 || (leb 9 b && leb b 13)

unfoldable pub trim_left : Bytes → Bytes
trim_left [] = []
trim_left (b ∷ s) = let rest = trim_left s in if is_space b then rest else b ∷ s

-- a byte before a text that is trimmed at the end
unfoldable pub before_end : ℕ → Bytes → Bytes
before_end b [] = if is_space b then [] else b ∷ []
before_end b (c ∷ s) = b ∷ c ∷ s

unfoldable pub trim_right : Bytes → Bytes
trim_right [] = []
trim_right (b ∷ s) = before_end b (trim_right s)

-- strings.TrimSpace
unfoldable pub trim_space : Bytes → Bytes
trim_space s = trim_left (trim_right s)

abbrev pub is_blank : Bytes → Bool
is_blank [] = true
is_blank (b ∷ s) = false

unfoldable pub same_text : Bytes → Bytes → Bool
same_text a b = ite (Bytes-discrete a b) true false

-- strings.EqualFold
unfoldable pub equal_fold : Bytes → Bytes → Bool
equal_fold a b = same_text (to_lower a) (to_lower b)

-- one more byte in front of the first part
unfoldable pub in_front : ℕ → List Bytes → List Bytes
in_front b [] = (b ∷ []) ∷ []
in_front b (p ∷ ps) = (b ∷ p) ∷ ps

-- strings.Split at a separator of one byte
unfoldable pub split : Bytes → ℕ → List Bytes
split [] sep = [] ∷ []
split (b ∷ s) sep = let rest = split s sep in if b == sep then [] ∷ rest else in_front b rest

abbrev pub is_digit : ℕ → Bool
is_digit b = leb 48 b && leb b 57

unfoldable pub all_digits : Bytes → Bool
all_digits [] = true
all_digits (b ∷ s) = is_digit b && all_digits s

-- the value of a text of digits that follow a number
unfoldable pub value_from : ℕ → Bytes → ℕ
value_from n [] = n
value_from n (b ∷ s) = value_from (n * 10 + (b - 48)) s

-- a text of digits, of which there is one at least, below a limit
unfoldable pub digits_below : ℕ → Bytes → Option ℕ
digits_below limit [] = none
digits_below limit (b ∷ s) =
    if all_digits (b ∷ s) && ltb (value_from 0 (b ∷ s)) limit
    then some (value_from 0 (b ∷ s))
    else none

abbrev pub negative : ℕ → ℤ
negative zero = pos 0
negative (suc n) = negsuc n

abbrev pub as_positive : Option ℕ → Option ℤ
as_positive none = none
as_positive (some n) = some (pos n)

abbrev pub as_negative : Option ℕ → Option ℤ
as_negative none = none
as_negative (some n) = some (negative n)

-- strconv.Atoi, whose results have 64 bits; `none` is an error
unfoldable pub atoi : Bytes → Option ℤ
atoi [] = none
atoi (b ∷ s) =
    if b == 45
    then as_negative (digits_below (2 ^ 63 + 1) s)
    else if b == 43
    then as_positive (digits_below (2 ^ 63) s)
    else as_positive (digits_below (2 ^ 63) (b ∷ s))

-- the decimal digits of a number on fuel
unfoldable pub decimal_from : ℕ → ℕ → Bytes
decimal_from zero n = []
decimal_from (suc fuel) n =
    let rest = decimal_from fuel (n / 10) in
    if ltb n 10 then (48 + n) ∷ [] else rest ++ ((48 + n % 10) ∷ [])

-- `%d`; a number has fewer digits than one more than itself
unfoldable pub decimal : ℕ → Bytes
decimal n = decimal_from (suc n) n
