-- ===== src/Prelude/Numbers.antt =====
-- JavaScript's `parseInt` with no radix. Integers are exact: the rounding of those of 2^53 and more
-- is left out, and so is the sign of zero.
use Prim.Native.Nat.{ℕ, ◌+◌, ◌*◌, ◌-◌}
use Prim.Native.Char.{Char, code}
use Prim.Native.String.{String}
use mathlib.Core.Bool.{Bool, ◌||◌, ◌&&◌}
use mathlib.Core.Option.{Option, none, some}
use mathlib.Core.Path.{◌≡◌, refl}
use account_lookup_bc.Prelude.Tests.{leb, ltb, eqb, if◌then◌else◌}
use account_lookup_bc.Prelude.Int.{ℤ, pos, negsuc, neg, Number, whole, not_a_number}
use account_lookup_bc.Prelude.Words.{trim_start}

-- The value of a digit, and 36 for any other character.
abbrev digit_value : ℕ → ℕ
digit_value n =
    if leb b'0' n && leb n b'9'
    then n - b'0'
    else if leb b'a' n && leb n b'z'
    then n - b'a' + 10
    else if leb b'A' n && leb n b'Z'
    then n - b'A' + 10
    else 36

-- The digits at the start of the text, after those that gave `acc`.
read_digits : ℕ → String → ℕ → ℕ
read_digits radix String.[] acc = acc
read_digits radix (String.◌∷◌ c s) acc =
    let rest = read_digits radix s (acc * radix + digit_value (code c)) in
    if ltb (digit_value (code c)) radix then rest else acc

read_natural : ℕ → String → Option ℕ
unfolding read_digits
read_natural radix String.[] = none
read_natural radix (String.◌∷◌ c s) =
    if ltb (digit_value (code c)) radix then some (read_digits radix (String.◌∷◌ c s) 0) else none

is_x : Char → Bool
is_x c = eqb (code c) b'x' || eqb (code c) b'X'

-- Hexadecimal after `0x`, and else decimal.
read_prefixed : String → Option ℕ
unfolding read_natural is_x
read_prefixed (String.◌∷◌ c (String.◌∷◌ x s)) =
    if eqb (code c) b'0' && is_x x
    then read_natural 16 s
    else read_natural 10 (String.◌∷◌ c (String.◌∷◌ x s))
read_prefixed s = read_natural 10 s

to_number : (ℕ → ℤ) → Option ℕ → Number
to_number sign none = not_a_number
to_number sign (some n) = whole (sign n)

read_signed : String → Number
unfolding read_prefixed to_number
read_signed String.[] = not_a_number
read_signed (String.◌∷◌ c s) =
    if eqb (code c) b'-'
    then to_number neg (read_prefixed s)
    else if eqb (code c) b'+'
    then to_number pos (read_prefixed s)
    else to_number pos (read_prefixed (String.◌∷◌ c s))

unfoldable pub parse_int : String → Number
unfolding read_signed trim_start
parse_int s = read_signed (trim_start s)

decimal_run : parse_int " -12.9px" ≡ whole (negsuc 11)
unfolding parse_int
decimal_run = refl

hexadecimal_run : parse_int "0x1f" ≡ whole (pos 31)
unfolding parse_int
hexadecimal_run = refl

no_number_run : parse_int "ten" ≡ not_a_number
unfolding parse_int
no_number_run = refl
