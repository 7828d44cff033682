-- ===== src/Implementations/Builtin/Effects.antt =====
-- What each call of the built-in oracle has done to the collection and to the cache, where the
-- servers behave as documented.
use account_lookup_bc.Prelude.{
  String, none, some, List, [], ◌∷◌, ◌++◌, ℕ, find, ◌≡◌, inl, inr, arith, Option-cases, ap, ◌∙◌,
  sym,
}
use account_lookup_bc.Effect.{ok, Result-cases}
use account_lookup_bc.Types.{Nullable, Association}
use account_lookup_bc.Implementations.Store.{
  matches, remove_first, Store, StoreLaws, Cache, Expires, set_entry, drop_entry,
}
use account_lookup_bc.Implementations.Builtin.{
  get_key_with_prefix, build_lookup_query, lookup_document, participant_query, cache_entry,
  parse_entry, get_from_database, get_from_cache, set_to_cache, del_from_cache,
  get_participant_fsp_id, associate_participant, disassociate_participant,
}

pub Expires-trans : (c c' c'' : Cache) → Expires c c' → Expires c' c'' → Expires c c''
Expires-trans c c' c'' h h' k = ground (arith, h k, h' k)

set_entry-Expires :
    (k v : String) (c c' : Cache) → Expires c c' → Expires (set_entry k v c) (set_entry k v c')
set_entry-Expires k v c c' h j = ground (arith, h j)

drop_entry-Expires :
    (k : String) (c c' : Cache) → Expires c c' → Expires (drop_entry k c) (drop_entry k c')
drop_entry-Expires k c c' h j = ground (arith, h j)

module _ {W : Type 0} (st : Store W) (secs : ℕ) (laws : StoreLaws st)
    (party_type party_id party_sub_type currency : Nullable) where
  open laws use {docs, cached}

  abbrev pub key : String
  key = get_key_with_prefix party_type party_id party_sub_type currency

  -- The FSP id that the database has for the party: that of the first document that matches.
  abbrev pub fsp_id_of_first : List Association → Nullable
  fsp_id_of_first l =
      elim (find (matches (participant_query party_type party_id party_sub_type currency)) l) [
        | none ↦ none
        | some d ↦ d.fsp_id
      ]

  associate_steps :
      (fsp_id : Nullable) (w w' : W)
      → associate_participant st secs fsp_id party_type party_id party_sub_type currency w
        ≡ (ok tt, w')
      → (w₁ : W) × (w₂ : W) × (st.find_one
            (build_lookup_query party_id fsp_id party_type party_sub_type currency)
            w
          ≡ (ok none, w₁))
        × (st.insert_one (lookup_document party_id fsp_id party_type party_sub_type currency) w₁
            ≡ (ok tt, w₂))
        × (st.redis_setex key secs
              (st.stringify
                (cache_entry st secs party_type party_id party_sub_type currency fsp_id))
              w₂
            ≡ (ok tt, w'))
  unfolding associate_participant set_to_cache
  associate_steps fsp_id w w' h =
      let looked =
        st.find_one (build_lookup_query party_id fsp_id party_type party_sub_type currency) w in
      elim (Result-cases looked.0) [
        | inl (none, e) ↦ (
          looked.1,
          (st.insert_one (lookup_document party_id fsp_id party_type party_sub_type currency)
              looked.1).1,
          ground arith,
          ground arith,
          ground arith,
        )
        | inl (some d, e) ↦ ground arith
        | inr (x, e) ↦ ground arith
      ]

  -- An association that resolves found no document that matches, has appended one, and has cached
  -- it; other entries of the cache have at most expired.
  pub associate_effect :
      (fsp_id : Nullable) (w w' : W)
      → associate_participant st secs fsp_id party_type party_id party_sub_type currency w
        ≡ (ok tt, w')
      → (find
            (matches (build_lookup_query party_id fsp_id party_type party_sub_type currency))
            (docs w)
          ≡ none)
        × (docs w'
            ≡ docs w ++ lookup_document party_id fsp_id party_type party_sub_type currency ∷ [])
        × Expires
            (set_entry key
              (st.stringify
                (cache_entry st secs party_type party_id party_sub_type currency fsp_id))
              (cached w))
            (cached w')
  associate_effect fsp_id w w' h =
      let (w₁, w₂, looked, inserted, cached_now) = associate_steps fsp_id w w' h in
      let (missing, same, expired) = laws.find_one_law _ _ w w₁ looked in
      let (stored, expired') = laws.insert_one_law _ w₁ w₂ inserted in
      let (same', expired'') = laws.setex_law _ _ _ w₂ w' cached_now in
      (
        sym missing,
        same'
            ∙ stored
            ∙ ap (λ l. l ++ lookup_document party_id fsp_id party_type party_sub_type currency ∷ [])
                same,
        Expires-trans _ _ _ (set_entry-Expires _ _ _ _ (Expires-trans _ _ _ expired expired'))
            expired'',
      )

  -- A disassociation that resolves has taken the first matching document out, if there is one, and
  -- the cache has no entry for the party; other entries have at most expired.
  pub disassociate_effect :
      (fsp_id : Nullable) (w w' : W)
      → disassociate_participant st secs fsp_id party_type party_id party_sub_type currency w
        ≡ (ok tt, w')
      → (docs w'
          ≡ remove_first
              (matches (build_lookup_query party_id fsp_id party_type party_sub_type currency))
              (docs w))
        × Expires (drop_entry key (cached w)) (cached w')
  unfolding disassociate_participant del_from_cache
  disassociate_effect fsp_id w w' h =
      let deleted =
        st.delete_one (build_lookup_query party_id fsp_id party_type party_sub_type currency) w in
      let (removed, expired) =
        laws.delete_one_law (build_lookup_query party_id fsp_id party_type party_sub_type currency)
          w deleted.1 (ground arith) in
      let (same, expired') = laws.del_law key deleted.1 w' (ground arith) in
      (same ∙ removed, Expires-trans _ _ _ (drop_entry-Expires _ _ _ expired) expired')

  -- What a lookup answers in a state: the FSP id of the party's cache entry, if there is one that
  -- parses, and else that of the first matching document of the collection, or null.
  abbrev pub known_fsp_id : W → Nullable
  known_fsp_id w = elim (parse_entry st secs (cached w key)) [
    | none ↦ fsp_id_of_first (docs w)
    | some fsp_id ↦ fsp_id
  ]

  answer_of_database :
      (r : Nullable) (w w' : W)
      → get_from_database st secs party_type party_id party_sub_type currency w ≡ (ok r, w')
      → (r ≡ fsp_id_of_first (docs w)) × (docs w' ≡ docs w)
  unfolding set_to_cache
  answer_of_database r w w' h =
      let q = participant_query party_type party_id party_sub_type currency in
      let found = st.find_one q w in
      elim (Result-cases found.0) [
        | inl (none, e) ↦
            let (first, same, _) = laws.find_one_law q none w found.1 (ground arith) in
            (ground (arith, first), ground (arith, same))
        | inl (some d, e) ↦
            let (first, same, _) = laws.find_one_law q (some d) w found.1 (ground arith) in
            let entry = cache_entry st secs party_type party_id party_sub_type currency d.fsp_id in
            let (same', _) =
              laws.setex_law key secs (st.stringify entry) found.1 w' (ground arith) in
            (ground (arith, first), same' ∙ same)
        | inr (x, e) ↦ ground arith
      ]

  -- A lookup that resolves answers with the FSP id that is known in the state before it, and leaves
  -- the collection as it was.
  pub lookup_effect :
      (r : Nullable) (w w' : W)
      → get_participant_fsp_id st secs party_type party_id party_sub_type currency w ≡ (ok r, w')
      → (r ≡ known_fsp_id w) × (docs w' ≡ docs w)
  unfolding get_participant_fsp_id get_from_cache
  lookup_effect r w w' h =
      let read = st.redis_get key w in
      elim (Result-cases read.0) [
        | inl (text, e) ↦
            let (entry, same, _) = laws.get_law key text w read.1 (ground arith) in
            elim (Option-cases (parse_entry st secs (cached w key))) [
              | inl miss ↦
                  let (first, same') =
                    answer_of_database r read.1 w' (ground (arith, entry, miss)) in
                  (ground (arith, first, same, miss), same' ∙ same)
              | inr (fsp_id, hit) ↦ (ground (arith, entry, hit), ground (arith, entry, hit, same))
            ]
        | inr (x, e) ↦ ground arith
      ]
