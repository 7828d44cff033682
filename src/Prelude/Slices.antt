-- ===== src/Prelude/Slices.antt =====
-- Parts of lists, by native numbers.
use Prim.Native.Nat.{ℕ, zero, suc, ◌+◌, ◌≤◌}
use mathlib.Core.Path.{◌≡◌, refl, ◌∙◌}
use mathlib.Core.Option.{Option, none, some}
use mathlib.Core.List.{List, [], ◌∷◌}
use mathlib.Core.List.{Permᴰ}
use mathlib.Core.List.Permᴰ.{nil, cons, swap, trans}
use native.Mathlib.Omega.{arith}
use account_lookup_bc.Prelude.Tests.{ltb, if◌then◌else◌}
use account_lookup_bc.Prelude.Lists.{length}

module _ {ℓ} {A : Type ℓ} where
  abbrev pub get_elem? : List A → ℕ → Option A
  get_elem? [] j = none
  get_elem? (x ∷ l) zero = some x
  get_elem? (x ∷ l) (suc j) = get_elem? l j

  abbrev pub drop : ℕ → List A → List A
  drop zero l = l
  drop (suc n) [] = []
  drop (suc n) (x ∷ l) = drop n l

  abbrev pub take : ℕ → List A → List A
  take zero l = []
  take (suc n) [] = []
  take (suc n) (x ∷ l) = x ∷ take n l

  pub get_elem?-drop : (l : List A) (n j : ℕ) → get_elem? (drop n l) j ≡ get_elem? l (n + j)
  get_elem?-drop l zero j = ground arith
  get_elem?-drop [] (suc n) j = refl
  get_elem?-drop (x ∷ l) (suc n) j = ground (arith, get_elem?-drop l n j)

  pub get_elem?-take :
      (l : List A) (n j : ℕ) → get_elem? (take n l) j ≡ (if ltb j n then get_elem? l j else none)
  get_elem?-take l zero j = ground arith
  get_elem?-take [] (suc n) j = ground arith
  get_elem?-take (x ∷ l) (suc n) zero = ground arith
  get_elem?-take (x ∷ l) (suc n) (suc j) = ground (arith, get_elem?-take l n j)

  pub length-take : (n : ℕ) (l : List A) → length (take n l) ≤ n
  length-take zero l = omega arith
  length-take (suc n) [] = omega arith
  length-take (suc n) (x ∷ l) = omega (arith, length-take n l)

  -- Lists with the same elements in another order have the same length.
  pub length-Permᴰ : {l m : List A} → Permᴰ l m → length l ≡ length m
  length-Permᴰ nil = refl
  length-Permᴰ (cons e d) = ground (arith, length-Permᴰ d)
  length-Permᴰ (swap e e') = refl
  length-Permᴰ (trans d d') = length-Permᴰ d ∙ length-Permᴰ d'
