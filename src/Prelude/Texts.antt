-- ===== src/Prelude/Texts.antt =====
-- Texts as template literals make them.
use Prim.Native.Nat.{ℕ, ◌+◌}
use Prim.Native.Char.{code}
use account_lookup_bc.Prelude.Tests.{leb, eqb, if◌then◌else◌}
use Prim.Native.String
use Prim.Native.String.{String}
use text.Mathlib.Text.{◌==◌}
use mathlib.Core.Bool.{Bool, true, false, ◌&&◌}
use text.Mathlib.TextEquality.{eq_iff}
use mathlib.Core.Path.{◌≡◌, refl}
use mathlib.Core.Option.{Option, none, some}

-- A nullable text in a template literal.
abbrev pub shown : Option String → String
shown none = "null"
shown (some s) = s

infixr 60 ◌<>◌
abbrev pub ◌<>◌ : String → String → String
a <> b = String.◌++◌ a b

-- `===` on nullable texts.
abbrev pub nullable_eq : Option String → Option String → Bool
nullable_eq none none = true
nullable_eq (some a) (some b) = a == b
nullable_eq _ _ = false

pub nullable_eq_refl : (v : Option String) → nullable_eq v v ≡ true
nullable_eq_refl none = refl
nullable_eq_refl (some s) = (eq_iff s s).1 refl

abbrev lower : ℕ → ℕ
lower n = if leb b'A' n && leb n b'Z' then n + 32 else n

-- The same text but for the case of its ASCII letters.
abbrev pub alike : String → String → Bool
alike String.[] String.[] = true
alike (String.◌∷◌ c s) (String.◌∷◌ d t) = eqb (lower (code c)) (lower (code d)) && alike s t
alike _ _ = false
