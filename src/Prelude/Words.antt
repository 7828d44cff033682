-- ===== src/Prelude/Words.antt =====
-- JavaScript's `trim` and `split(" ")` on texts.
use Prim.Native.Nat.{ℕ}
use Prim.Native.Char.{Char, code}
use Prim.Native.String.{String}
use mathlib.Core.Bool.{Bool, true, false, ◌||◌, ◌&&◌}
use mathlib.Core.List.{List, [], ◌∷◌}
use mathlib.Core.Path.{◌≡◌, refl, ap, sym, ◌∙◌}
use native.Mathlib.Omega.{arith}
use text.Mathlib.Text.{◌==◌}
use text.Mathlib.TextLemmas.{nil-append, cons-append, append_assoc, cons≢nil}
use text.Mathlib.TextEquality.{eq_iff}
use mathlib.Core.Logic.{◌≢◌, inl, inr}
use account_lookup_bc.Prelude.Tests.{leb, eqb, Bool-cases, if◌then◌else◌}
use account_lookup_bc.Prelude.Texts.{◌<>◌}

-- White space and line terminators of ECMAScript
abbrev pub is_space : ℕ → Bool
is_space n =
    (leb 9 n && leb n 13)
    || (eqb n 32
        || (eqb n 160
            || (eqb n 5760
                || ((leb 8192 n && leb n 8202)
                    || (eqb n 8232
                        || (eqb n 8233
                            || (eqb n 8239 || (eqb n 8287 || (eqb n 12288 || eqb n 65279)))))))))

unfoldable pub trim_start : String → String
trim_start String.[] = ""
trim_start (String.◌∷◌ c s) =
    let rest = trim_start s in if is_space (code c) then rest else String.◌∷◌ c s

unfoldable pub trim_end : String → String
trim_end String.[] = ""
trim_end (String.◌∷◌ c s) =
    let rest = trim_end s in if is_space (code c) && rest == "" then "" else String.◌∷◌ c rest

abbrev pub trim : String → String
trim s = trim_end (trim_start s)

abbrev pub push_char : Char → List String → List String
push_char c [] = String.◌∷◌ c "" ∷ []
push_char c (w ∷ rest) = String.◌∷◌ c w ∷ rest

unfoldable pub split_spaces : String → List String
split_spaces String.[] = "" ∷ []
split_spaces (String.◌∷◌ c s) =
    let rest = split_spaces s in if eqb (code c) 32 then "" ∷ rest else push_char c rest

-- No character of the text is white space.
abbrev pub is_solid : String → Bool
is_solid String.[] = true
is_solid (String.◌∷◌ c s) = if is_space (code c) then false else is_solid s

trim_run : trim "  Bearer abc " ≡ "Bearer abc"
unfolding trim_start trim_end
trim_run = refl

split_run : split_spaces "Bearer  abc" ≡ "Bearer" ∷ "" ∷ "abc" ∷ []
unfolding split_spaces
split_run = refl

split_solid : (t : String) → is_solid t ≡ true → split_spaces t ≡ t ∷ []
unfolding split_spaces
split_solid String.[] h = refl
split_solid (String.◌∷◌ c t) h = ground (arith, h, split_solid t)

split_space : (t : String) → split_spaces (" " <> t) ≡ "" ∷ split_spaces t
unfolding split_spaces
split_space t = ap split_spaces (cons-append " " "" t ∙ ap (λ x. String.◌∷◌ " " x) (nil-append t))

split_pair :
    (s t : String)
    → is_solid s ≡ true
    → is_solid t ≡ true
    → split_spaces (s <> " " <> t) ≡ s ∷ t ∷ []
unfolding split_spaces
split_pair String.[] t h h' =
    ap split_spaces (nil-append (" " <> t)) ∙ split_space t ∙ ap (λ l. "" ∷ l) (split_solid t h')
split_pair (String.◌∷◌ c s) t h h' =
    ap split_spaces (cons-append c s (" " <> t)) ∙ ground (arith, h, split_pair s t)

pub append-nonempty : (a t : String) → t ≢ "" → (a <> t == "") ≡ false
append-nonempty String.[] t ne = ground (arith, nil-append t, eq_iff t "", ne)
append-nonempty (String.◌∷◌ c a) t ne = elim (Bool-cases (String.◌∷◌ c a <> t == "")) [
  | inl empty ↦ absurd (cons≢nil (sym (cons-append c a t) ∙ (eq_iff _ "").0 empty))
  | inr filled ↦ filled
]

trim_end_solid : (t : String) → is_solid t ≡ true → trim_end t ≡ t
unfolding trim_end
trim_end_solid String.[] h = refl
trim_end_solid (String.◌∷◌ c t) h = ground (arith, h, trim_end_solid t)

trim_end_append : (a t : String) → is_solid t ≡ true → t ≢ "" → trim_end (a <> t) ≡ a <> t
unfolding trim_end
trim_end_append String.[] t h ne =
    ap trim_end (nil-append t) ∙ trim_end_solid t h ∙ sym (nil-append t)
trim_end_append (String.◌∷◌ c a) t h ne =
    ap trim_end (cons-append c a t)
    ∙ ground (arith, trim_end_append a t h ne, append-nonempty a t ne)
    ∙ sym (cons-append c a t)

trim_start_solid : (s u : String) → is_solid s ≡ true → s ≢ "" → trim_start (s <> u) ≡ s <> u
unfolding trim_start
trim_start_solid String.[] u h ne = absurd (ne refl)
trim_start_solid (String.◌∷◌ c s) u h ne =
    ap trim_start (cons-append c s u) ∙ ground (arith, h) ∙ sym (cons-append c s u)

-- Two words with one space between them are split into the two words.
pub words_of_pair :
    (s t : String)
    → is_solid s ≡ true
    → s ≢ ""
    → is_solid t ≡ true
    → t ≢ ""
    → split_spaces (trim (s <> " " <> t)) ≡ s ∷ t ∷ []
words_of_pair s t h ne h' ne' =
    ap (λ x. split_spaces (trim_end x)) (trim_start_solid s (" " <> t) h ne)
    ∙ ap (λ x. split_spaces (trim_end x)) (sym (append_assoc s " " t))
    ∙ ap split_spaces (trim_end_append (s <> " ") t h' ne')
    ∙ ap split_spaces (append_assoc s " " t)
    ∙ split_pair s t h h'
