-- ===== src/Mocks/Removal.antt =====
-- What removing an oracle does to the finder in memory, which the service's tests start with.
use account_lookup_bc.Prelude.{
  String, none, some, Bool, List, [], ◌∷◌, ℕ, suc, find, ◌==◌, if◌then◌else◌, is_some, ◌≡◌, refl,
  ap, arith, inl, inr, Bool-cases, Option-cases,
}
use account_lookup_bc.Effect.{ok}
use account_lookup_bc.Types.{Oracle}
use account_lookup_bc.Implementations.Store.{remove_first}
use account_lookup_bc.Mocks.{find_index, remove_at, remove_last, splice_one, memory_oracle_finder}

module _ {A : Type 0} (p : A → Bool) where
  find_index-none : (l : List A) → find p l ≡ none → find_index p l ≡ none
  find_index-none [] h = refl
  find_index-none (x ∷ l) h = ground (arith, h, find_index-none l)

  find_index-some :
      (l : List A) (a : A)
      → find p l ≡ some a
      → (n : ℕ) × (find_index p l ≡ some n) × (remove_at n l ≡ remove_first p l)
  find_index-some [] a h = cc
  find_index-some (x ∷ l) a h = elim (Bool-cases (p x)) [
    | inl here ↦ (0, ground (arith, here), ground (arith, here))
    | inr later ↦
        let (n, there, taken) = find_index-some l a (ground (arith, h, later)) in
        (suc n, ground (arith, later, there), ground (arith, later, taken))
  ]

  splice-find_index :
      (l : List A)
      → splice_one (find_index p l) l
        ≡ (if is_some (find p l) then remove_first p l else remove_last l)
  splice-find_index l = elim (Option-cases (find p l)) [
    | inl missing ↦ ground (arith, missing, find_index-none l missing)
    | inr (a, known) ↦
        let (n, there, taken) = find_index-some l a known in ground (arith, known, there, taken)
  ]

-- The finder in memory resolves every removal: one of an id that an oracle has takes out the first
-- such oracle, and one of an id that no oracle has takes out the last oracle of the list.
pub remove_oracle_lem :
    (id : String) (l : List Oracle)
    → memory_oracle_finder.remove_oracle id l ≡ (
      ok tt,
      if is_some (find (λ o. o.id == id) l)
          then remove_first (λ o. o.id == id) l
          else remove_last l,
    )
unfolding memory_oracle_finder
remove_oracle_lem id l = ap (λ m. (ok tt, m)) (splice-find_index (λ o. o.id == id) l)
