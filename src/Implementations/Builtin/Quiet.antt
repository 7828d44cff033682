-- ===== src/Implementations/Builtin/Quiet.antt =====
-- Steps between the calls of the built-in oracle which leave its collection alone, and during which
-- cache entries at most expire.
use account_lookup_bc.Prelude.{
  none, [], ◌∷◌, ℕ, find, ◌≡◌, refl, inl, inr, arith, eq_iff, ap, ◌∙◌, find-append,
}
use account_lookup_bc.Effect.{ok}
use account_lookup_bc.Types.{Nullable}
use account_lookup_bc.Implementations.Store.{matches, Store, StoreLaws, Expires}
use account_lookup_bc.Implementations.Builtin.{
  lookup_document, participant_query, cache_entry, get_participant_fsp_id, associate_participant,
}
use account_lookup_bc.Implementations.Builtin.Effects.{
  Expires-trans, key, fsp_id_of_first, associate_effect, lookup_effect,
}
use account_lookup_bc.Implementations.Builtin.Lookup.{
  matches_own, known_of_entry, known_of_database,
}

module _ {W : Type 0} (st : Store W) (laws : StoreLaws st) where
  open laws use {docs, cached}

  pub record IsQuiet (w w' : W) : Type 0 where
    pub same_docs : docs w' ≡ docs w
    pub expired : Expires (cached w) (cached w')

  pub IsQuiet-refl : (w : W) → IsQuiet w w
  IsQuiet-refl w = record { same_docs = refl; expired = λ k. inl refl }

  pub IsQuiet-trans : (w w' w'' : W) → IsQuiet w w' → IsQuiet w' w'' → IsQuiet w w''
  IsQuiet-trans w w' w'' q q' = record {
    same_docs = q'.same_docs ∙ q.same_docs;
    expired = Expires-trans _ _ _ q.expired q'.expired;
  }

  -- An association that resolves for a party without a document is what a later lookup answers
  -- with, if the steps between are quiet.
  pub lookup-associate_quiet :
      (secs : ℕ) (party_type party_id party_sub_type currency fsp_id r : Nullable) (w w₁ w₂ w₃ : W)
      → associate_participant st secs fsp_id party_type party_id party_sub_type currency w
        ≡ (ok tt, w₁)
      → IsQuiet w₁ w₂
      → get_participant_fsp_id st secs party_type party_id party_sub_type currency w₂ ≡ (ok r, w₃)
      → find (matches (participant_query party_type party_id party_sub_type currency)) (docs w)
        ≡ none
      → r ≡ fsp_id
  lookup-associate_quiet secs party_type party_id party_sub_type currency fsp_id r w w₁ w₂ w₃
        associated quiet looked_up unknown =
      let (_, stored, expired) =
        associate_effect st secs laws party_type party_id party_sub_type currency fsp_id w w₁
          associated in
      let (is, _) =
        lookup_effect st secs laws party_type party_id party_sub_type currency r w₂ w₃ looked_up in
      let k = key st secs laws party_type party_id party_sub_type currency in
      let entry = cache_entry st secs party_type party_id party_sub_type currency fsp_id in
      elim (Expires-trans _ _ _ expired quiet.expired k) [
        | inl live ↦
            is
            ∙ known_of_entry st secs laws party_type party_id party_sub_type currency w₂ entry
                (ground (arith, live, eq_iff k k))
        | inr gone ↦
            is
            ∙ known_of_database st secs laws party_type party_id party_sub_type currency w₂ gone
            ∙ ap (fsp_id_of_first st secs laws party_type party_id party_sub_type currency)
                (quiet.same_docs ∙ stored)
            ∙ ground (
              arith,
              find-append (matches (participant_query party_type party_id party_sub_type currency))
                  (docs w) (lookup_document party_id fsp_id party_type party_sub_type currency ∷ [])
                  unknown,
              matches_own party_id fsp_id party_type party_sub_type currency,
            )
      ]
