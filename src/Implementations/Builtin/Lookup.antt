-- ===== src/Implementations/Builtin/Lookup.antt =====
-- Looking a party up in the built-in oracle after an association or a disassociation, also where
-- the cache and the collection disagree.
use account_lookup_bc.Prelude.{
  none, some, true, List, [], ◌∷◌, ◌++◌, ℕ, find, ◌≡◌, refl, ◌≢◌, ◌⊎◌, inl, inr, arith, eq_iff, ap,
  ◌∙◌, find-append, find-append_some, nullable_eq_refl,
}
use account_lookup_bc.Effect.{ok}
use account_lookup_bc.Types.{Nullable, Association}
use account_lookup_bc.Implementations.Store.{given_eq, matches, remove_first, Store, StoreLaws}
use account_lookup_bc.Implementations.Builtin.{
  build_lookup_query, lookup_document, participant_query, cache_entry, get_participant_fsp_id,
  associate_participant, disassociate_participant,
}
use account_lookup_bc.Implementations.Builtin.Effects.{
  key, fsp_id_of_first, known_fsp_id, associate_effect, disassociate_effect, lookup_effect,
}

given_eq_refl : (v : Nullable) → given_eq v v ≡ true
given_eq_refl none = refl
given_eq_refl (some s) = (eq_iff s s).1 refl

-- The document that an association stores matches the query of a lookup for its party.
pub matches_own :
    (party_id fsp_id party_type party_sub_type currency : Nullable)
    → matches
        (participant_query party_type party_id party_sub_type currency)
        (lookup_document party_id fsp_id party_type party_sub_type currency)
      ≡ true
matches_own party_id fsp_id party_type party_sub_type currency =
    simp (nullable_eq_refl, given_eq_refl)

module _ {W : Type 0} (st : Store W) (secs : ℕ) (laws : StoreLaws st)
    (party_type party_id party_sub_type currency : Nullable) where
  open laws use {docs, cached}

  abbrev first_known : List Association → Nullable
  first_known = fsp_id_of_first st secs laws party_type party_id party_sub_type currency

  -- A live entry answers with its FSP id.
  pub known_of_entry :
      (w : W) (a : Association)
      → cached w (key st secs laws party_type party_id party_sub_type currency)
        ≡ some (st.stringify a)
      → known_fsp_id st secs laws party_type party_id party_sub_type currency w ≡ a.fsp_id
  known_of_entry w a live =
      ground (arith, live, laws.json_law a, laws.json_nonempty a, eq_iff (st.stringify a) "")

  -- No entry: the collection answers.
  pub known_of_database :
      (w : W)
      → cached w (key st secs laws party_type party_id party_sub_type currency) ≡ none
      → known_fsp_id st secs laws party_type party_id party_sub_type currency w
        ≡ first_known (docs w)
  known_of_database w expired = ground (arith, expired)

  module _ (fsp_id : Nullable) (w w₁ w₂ : W) (r : Nullable)
      (associated : associate_participant st secs fsp_id party_type party_id party_sub_type currency
          w
        ≡ (ok tt, w₁))
      (looked_up : get_participant_fsp_id st secs party_type party_id party_sub_type currency w₁
        ≡ (ok r, w₂)) where
    -- After the association the answer comes from its cache entry, or from the collection.
    associated_answer :
        (r ≡ fsp_id)
        ⊎ (r
            ≡ first_known
                (docs w ++ lookup_document party_id fsp_id party_type party_sub_type currency ∷ []))
    associated_answer =
        let (_, stored, expired) =
          associate_effect st secs laws party_type party_id party_sub_type currency fsp_id w w₁
            associated in
        let (is, _) =
          lookup_effect st secs laws party_type party_id party_sub_type currency r w₁ w₂
            looked_up in
        let k = key st secs laws party_type party_id party_sub_type currency in
        let entry = cache_entry st secs party_type party_id party_sub_type currency fsp_id in
        elim (expired k) [
          | inl live ↦ inl (is ∙ known_of_entry w₁ entry (ground (arith, live, eq_iff k k)))
          | inr gone ↦ inr (is ∙ known_of_database w₁ gone ∙ ap first_known stored)
        ]

    -- Round trip: where the servers behave as documented and no document of the collection matches
    -- the party, an association that resolves is what the next lookup that resolves answers with,
    -- whether its cache entry has expired or not.
    pub lookup-associate :
        find (matches (participant_query party_type party_id party_sub_type currency)) (docs w)
          ≡ none
        → r ≡ fsp_id
    lookup-associate unknown = elim associated_answer [
      | inl cached_now ↦ cached_now
      | inr stored ↦ ground (
        arith,
        stored,
        find-append (matches (participant_query party_type party_id party_sub_type currency))
            (docs w) (lookup_document party_id fsp_id party_type party_sub_type currency ∷ [])
            unknown,
        matches_own party_id fsp_id party_type party_sub_type currency,
      )
    ]

    -- Where the servers behave as documented, `findOne` takes the first match in the order of
    -- insertion, and the collection has a document for the party already, an association of a second FSP may resolve all the same, and the next lookup then
    -- depends on the cache: it answers with the new FSP while the entry lives, and with the one of
    -- the older document once it has expired.
    pub lookup-associate_second :
        (d : Association)
        → find (matches (participant_query party_type party_id party_sub_type currency)) (docs w)
          ≡ some d
        → (cached w₁ (key st secs laws party_type party_id party_sub_type currency) ≢ none
            → r ≡ fsp_id)
          × (cached w₁ (key st secs laws party_type party_id party_sub_type currency) ≡ none
              → r ≡ d.fsp_id)
    lookup-associate_second d known =
        let (_, stored, expired) =
          associate_effect st secs laws party_type party_id party_sub_type currency fsp_id w w₁
            associated in
        let (is, _) =
          lookup_effect st secs laws party_type party_id party_sub_type currency r w₁ w₂
            looked_up in
        let k = key st secs laws party_type party_id party_sub_type currency in
        let entry = cache_entry st secs party_type party_id party_sub_type currency fsp_id in
        (
          (λ live. elim (expired k) [
            | inl set ↦ is ∙ known_of_entry w₁ entry (ground (arith, set, eq_iff k k))
            | inr gone ↦ absurd (live gone)
          ]),
          λ gone.
              is
              ∙ known_of_database w₁ gone
              ∙ ap first_known stored
              ∙ ground (
                arith,
                find-append_some
                    (matches (participant_query party_type party_id party_sub_type currency))
                    (docs w)
                    (lookup_document party_id fsp_id party_type party_sub_type currency ∷ []) d
                    known,
              ),
        )

  -- Where the servers behave as documented, the next lookup that resolves after a disassociation
  -- that resolves answers with the first document for the party that is left, or null: no cache
  -- entry of the party survives.
  pub lookup-disassociate :
      (fsp_id : Nullable) (w w₁ w₂ : W) (r : Nullable)
      → disassociate_participant st secs fsp_id party_type party_id party_sub_type currency w
        ≡ (ok tt, w₁)
      → get_participant_fsp_id st secs party_type party_id party_sub_type currency w₁ ≡ (ok r, w₂)
      → r
        ≡ first_known (
            remove_first
              (matches (build_lookup_query party_id fsp_id party_type party_sub_type currency))
              (docs w))
  lookup-disassociate fsp_id w w₁ w₂ r removed looked_up =
      let (left, expired) =
        disassociate_effect st secs laws party_type party_id party_sub_type currency fsp_id w w₁
          removed in
      let (is, _) =
        lookup_effect st secs laws party_type party_id party_sub_type currency r w₁ w₂ looked_up in
      let k = key st secs laws party_type party_id party_sub_type currency in
      let gone : cached w₁ k ≡ none = ground (arith, expired k, eq_iff k k) in
      is ∙ known_of_database w₁ gone ∙ ap first_known left
