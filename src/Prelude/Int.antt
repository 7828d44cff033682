-- ===== src/Prelude/Int.antt =====
-- Integers over the native numbers, and the quotients of JavaScript's numbers.
use Prim.Native.Nat.{ℕ, zero, suc, ◌+◌, ◌*◌, ◌/◌}
use mathlib.Core.Bool.{Bool, true, false}
use account_lookup_bc.Prelude.Tests.{leb, eqb, if◌then◌else◌}

-- `negsuc n` is -(n + 1).
pub data ℤ : Type 0 where
  pos : ℕ → ℤ
  negsuc : ℕ → ℤ

-- -n
abbrev pub neg : ℕ → ℤ
neg zero = pos 0
neg (suc n) = negsuc n

abbrev pub leb_ℤ : ℤ → ℤ → Bool
leb_ℤ (pos a) (pos b) = leb a b
leb_ℤ (pos a) (negsuc b) = false
leb_ℤ (negsuc a) (pos b) = true
leb_ℤ (negsuc a) (negsuc b) = leb b a

infixl 70 ◌*ℤ◌
abbrev pub ◌*ℤ◌ : ℤ → ℤ → ℤ
pos a *ℤ pos b = pos (a * b)
pos a *ℤ negsuc b = neg (a * suc b)
negsuc a *ℤ pos b = neg (suc a * b)
negsuc a *ℤ negsuc b = pos (suc a * suc b)

-- The smaller and the larger one
abbrev pub min_ℤ : ℤ → ℤ → ℤ
min_ℤ a b = if leb_ℤ a b then a else b

abbrev pub max_ℤ : ℤ → ℤ → ℤ
max_ℤ a b = if leb_ℤ a b then b else a

-- What a division of two integers, rounded, may give.
pub data Rounded : Type 0 where
  int : ℤ → Rounded
  infinity nan : Rounded

-- What `parseInt` gives, and what products and bounds of such numbers are.
pub data Number : Type 0 where
  whole : ℤ → Number
  not_a_number : Number

abbrev pub times : Number → Number → Number
times (whole a) (whole b) = whole (a *ℤ b)
times _ _ = not_a_number

-- `Math.min` and `Math.max`
abbrev pub min_number : Number → Number → Number
min_number (whole a) (whole b) = whole (min_ℤ a b)
min_number _ _ = not_a_number

abbrev pub max_number : Number → Number → Number
max_number (whole a) (whole b) = whole (max_ℤ a b)
max_number _ _ = not_a_number

-- `a <= b`
abbrev pub leb_number : Number → Number → Bool
leb_number (whole a) (whole b) = leb_ℤ a b
leb_number _ _ = false

-- `Math.ceil(n / d)`
abbrev pub ceil_div : ℕ → Number → Rounded
ceil_div n (whole (pos zero)) = if eqb n 0 then nan else infinity
ceil_div n (whole (pos (suc d))) = int (pos ((n + d) / suc d))
ceil_div n (whole (negsuc d)) = int (neg (n / suc d))
ceil_div n not_a_number = nan
