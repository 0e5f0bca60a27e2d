-- ===== src/Prelude/Text.antt =====
-- The functions of Go's `strings` and `strconv` that the program calls, on texts and signed numbers.
use Prim.Native.Nat.{ℕ, zero, suc, ◌+◌, ◌-◌, ◌*◌}
use Prim.Native.Char.{Char, code}
use Prim.Native.String.{String, len, slice}
use mathlib.Core.Bool.{Bool, true, ◌&&◌}
use mathlib.Core.Option.{Option, none, some}
use text.Mathlib.Text.{starts_with}
use watchkeeper.Prelude.Tests.{ltb, leb, ◌==◌, if◌then◌else◌}

-- `pos n` is n, and `negsuc n` is -(n+1).
pub data ℤ : Type 0 where
  pos : ℕ → ℤ
  negsuc : ℕ → ℤ

-- `i < 1`
abbrev pub below_one : ℤ → Bool
below_one (pos n) = ltb n 1
below_one (negsuc n) = true

-- `i < low || i > high`, where `low` is positive
abbrev pub outside : ℕ → ℕ → ℤ → Bool
outside low high (pos n) = if ltb n low then true else ltb high n
outside low high (negsuc n) = true

-- The number of an `i` that is not negative.
abbrev pub magnitude : ℤ → ℕ
magnitude (pos n) = n
magnitude (negsuc n) = suc n

-- `strings.TrimPrefix`
abbrev pub trim_prefix : String → String → String
trim_prefix s p = if starts_with s p then slice s (len p) (len s) else s

abbrev is_digit : Char → Bool
is_digit c = leb 48 (code c) && leb (code c) 57

abbrev digits_after : ℕ → String → Option ℕ
digits_after n String.[] = some n
digits_after n (String.◌∷◌ c s) =
    let rest = digits_after (10 * n + (code c - 48)) s in if is_digit c then rest else none

abbrev digits : String → Option ℕ
digits String.[] = none
digits (String.◌∷◌ c s) = digits_after 0 (String.◌∷◌ c s)

-- `strconv.Atoi`, whose numbers have 64 bits.
abbrev non_negative : Option ℕ → Option ℤ
non_negative none = none
non_negative (some n) = if ltb n 9223372036854775808 then some (pos n) else none

abbrev negative : Option ℕ → Option ℤ
negative none = none
negative (some zero) = some (pos zero)
negative (some (suc n)) = if ltb n 9223372036854775808 then some (negsuc n) else none

abbrev signed : Char → String → Option ℤ
signed c s =
    if code c == 45
    then negative (digits s)
    else if code c == 43
    then non_negative (digits s)
    else non_negative (digits (String.◌∷◌ c s))

abbrev pub atoi : String → Option ℤ
atoi String.[] = none
atoi (String.◌∷◌ c s) = signed c s
