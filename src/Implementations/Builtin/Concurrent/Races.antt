-- ===== src/Implementations/Builtin/Concurrent/Races.antt =====
-- Where calls in flight, or calls that name a party by other details, get into each other's way.
use account_lookup_bc.Prelude.{
  Bool, Option, none, some, true, List, [], ◌∷◌, ◌++◌, ℕ, find, ◌≡◌, ◌≢◌, inl, inr, ◌∙◌, ap, arith,
  eq_iff,
}
use mathlib.Core.List.{append_assoc}
use account_lookup_bc.Effect.{ok, Result-cases}
use account_lookup_bc.Types.{Nullable, Association}
use account_lookup_bc.Implementations.Store.{
  matches, remove_first, Store, StoreLaws, Expires, set_entry,
}
use account_lookup_bc.Implementations.Builtin.{
  set_to_cache, get_participant_fsp_id, associate_participant, disassociate_participant,
}
use account_lookup_bc.Implementations.Builtin.Effects.{
  associate_effect, disassociate_effect, lookup_effect,
}
use account_lookup_bc.Implementations.Builtin.Lookup.{known_of_entry}
use account_lookup_bc.Implementations.Builtin.Concurrent.{
  Party, querying, saving, looking, inserting, caching, found, party_key, query_of, lookup_of,
  document_of, entry_of, advance,
}

remove_first-snoc {ℓ} :
    {A : Type ℓ} (p : A → Bool) (l : List A) (a : A)
    → find p l ≡ none
    → p a ≡ true
    → remove_first p (l ++ a ∷ []) ≡ l
remove_first-snoc p [] a h e = ground (arith, e)
remove_first-snoc p (x ∷ l) a h e = ground (arith, e, h, remove_first-snoc p l a)

module _ {W : Type 0} (st : Store W) (secs : ℕ) (laws : StoreLaws st) (p : Party)
    (fsp_id : Nullable) where
  open laws use {docs, cached}

  -- Two associations of the same FSP with the same party are in flight, where no document is
  -- stored yet. If both look for it before either has inserted one, and the servers behave as
  -- documented and do not reject, both go on and the association is stored twice.
  pub both_associate :
      (found₁ found₂ : Option Association) (w w₁ w₂ w₃ w₄ : W)
      → find (matches (lookup_of p fsp_id)) (docs w) ≡ none
      → st.find_one (lookup_of p fsp_id) w ≡ (ok found₁, w₁)
      → st.find_one (lookup_of p fsp_id) w₁ ≡ (ok found₂, w₂)
      → st.insert_one (document_of p fsp_id) w₂ ≡ (ok tt, w₃)
      → st.insert_one (document_of p fsp_id) w₃ ≡ (ok tt, w₄)
      → (advance st secs (looking p fsp_id) w ≡ (inserting p fsp_id, w₁))
        × (advance st secs (looking p fsp_id) w₁ ≡ (inserting p fsp_id, w₂))
        × (advance st secs (inserting p fsp_id) w₂ ≡ (caching p fsp_id, w₃))
        × (advance st secs (inserting p fsp_id) w₃ ≡ (caching p fsp_id, w₄))
        × (docs w₄ ≡ docs w ++ document_of p fsp_id ∷ document_of p fsp_id ∷ [])
  unfolding advance
  both_associate found₁ found₂ w w₁ w₂ w₃ w₄ unknown look₁ look₂ insert₁ insert₂ =
      let (is₁, same₁, _) = laws.find_one_law _ _ _ _ look₁ in
      let (is₂, same₂, _) = laws.find_one_law _ _ _ _ look₂ in
      let (stored₁, _) = laws.insert_one_law _ _ _ insert₁ in
      let (stored₂, _) = laws.insert_one_law _ _ _ insert₂ in
      let d = document_of p fsp_id in
      let none₁ : found₁ ≡ none = is₁ ∙ unknown in
      let none₂ : found₂ ≡ none = is₂ ∙ ap (find (matches (lookup_of p fsp_id))) same₁ ∙ unknown in
      (
        ground (arith, look₁, none₁),
        ground (arith, look₂, none₂),
        ground (arith, insert₁),
        ground (arith, insert₂),
        stored₂
            ∙ ap (λ l. l ++ d ∷ []) (stored₁ ∙ ap (λ l. l ++ d ∷ []) (same₂ ∙ same₁))
            ∙ append_assoc (docs w) (d ∷ []) (d ∷ []),
      )

  answer_of_live_entry :
      (r : Nullable) (w w' : W)
      → cached w (party_key p) ≡ some (st.stringify (entry_of st secs p fsp_id))
      → get_participant_fsp_id st secs p.party_type p.party_id p.party_sub_type p.currency w
        ≡ (ok r, w')
      → r ≡ fsp_id
  answer_of_live_entry r w w' live looked_up =
      let (is, _) =
        lookup_effect st secs laws p.party_type p.party_id p.party_sub_type p.currency r w w'
          looked_up in
      is
      ∙ known_of_entry st secs laws p.party_type p.party_id p.party_sub_type p.currency w
          (entry_of st secs p fsp_id) live

  -- An entry that was set and has not expired.
  live_entry :
      (w w' : W)
      → Expires
          (set_entry (party_key p) (st.stringify (entry_of st secs p fsp_id)) (cached w))
          (cached w')
      → cached w' (party_key p) ≢ none
      → cached w' (party_key p) ≡ some (st.stringify (entry_of st secs p fsp_id))
  live_entry w w' expired live = elim (expired (party_key p)) [
    | inl set ↦ ground (arith, set, eq_iff (party_key p) (party_key p))
    | inr gone ↦ absurd (live gone)
  ]

  queried_docs :
      (w w₁ : W) → advance st secs (querying p) w ≡ (saving p fsp_id, w₁) → docs w₁ ≡ docs w
  unfolding advance
  queried_docs w w₁ queried =
      let call = st.find_one (query_of p) w in
      elim (Result-cases call.0) [
        | inl (o, e) ↦
            let (_, same, _) = laws.find_one_law (query_of p) o w w₁ (ground (arith, e, queried)) in
            same
        | inr (x, e) ↦ ground (arith, e, queried)
      ]

  entry_of_saving :
      (w w₁ : W)
      → advance st secs (saving p fsp_id) w ≡ (found p fsp_id, w₁)
      → (docs w₁ ≡ docs w)
        × Expires
            (set_entry (party_key p) (st.stringify (entry_of st secs p fsp_id)) (cached w))
            (cached w₁)
  unfolding advance set_to_cache
  entry_of_saving w w₁ saved =
      let v = st.stringify (entry_of st secs p fsp_id) in
      let call = st.redis_setex (party_key p) secs v w in
      elim (Result-cases call.0) [
        | inl (_, e) ↦ laws.setex_law (party_key p) secs v w w₁ (ground (arith, e, saved))
        | inr (x, e) ↦ ground (arith, e, saved)
      ]

  -- A lookup in flight has read the party's document from the collection but not yet cached it when
  -- the FSP is disassociated from the party. Where the servers behave as documented and do not
  -- reject, the lookup then caches the FSP that was removed, and as long as that entry lives, the
  -- next lookup answers with it.
  pub lookup_outlives_disassociation :
      (r : Nullable) (w w₁ w₂ w₃ w₄ : W)
      → advance st secs (querying p) w ≡ (saving p fsp_id, w₁)
      → disassociate_participant st secs fsp_id p.party_type p.party_id p.party_sub_type p.currency
          w₁
        ≡ (ok tt, w₂)
      → advance st secs (saving p fsp_id) w₂ ≡ (found p fsp_id, w₃)
      → cached w₃ (party_key p) ≢ none
      → get_participant_fsp_id st secs p.party_type p.party_id p.party_sub_type p.currency w₃
        ≡ (ok r, w₄)
      → (docs w₃ ≡ remove_first (matches (lookup_of p fsp_id)) (docs w)) × (r ≡ fsp_id)
  lookup_outlives_disassociation r w w₁ w₂ w₃ w₄ queried removed saved live looked_up =
      let (left, _) =
        disassociate_effect st secs laws p.party_type p.party_id p.party_sub_type p.currency fsp_id
          w₁ w₂ removed in
      let (same, set) = entry_of_saving w₂ w₃ saved in
      (
        same ∙ left ∙ ap (remove_first (matches (lookup_of p fsp_id))) (queried_docs w w₁ queried),
        answer_of_live_entry r w₃ w₄ (live_entry w₂ w₃ set live) looked_up,
      )

  -- An association `p` is stored, and then the FSP is disassociated by a request `q` whose filter
  -- matches the same document but whose cache key is another: one that leaves out the currency or
  -- the sub type. Where the servers behave as documented, the document is deleted, but as long as
  -- the entry of `p` lives, a lookup of `p` that resolves answers with the FSP all the same.
  pub lookup_outlives_other_key :
      (q : Party) (r : Nullable) (w w₁ w₂ w₃ : W)
      → associate_participant st secs fsp_id p.party_type p.party_id p.party_sub_type p.currency w
        ≡ (ok tt, w₁)
      → disassociate_participant st secs fsp_id q.party_type q.party_id q.party_sub_type q.currency
          w₁
        ≡ (ok tt, w₂)
      → find (matches (lookup_of q fsp_id)) (docs w) ≡ none
      → matches (lookup_of q fsp_id) (document_of p fsp_id) ≡ true
      → party_key q ≢ party_key p
      → cached w₂ (party_key p) ≢ none
      → get_participant_fsp_id st secs p.party_type p.party_id p.party_sub_type p.currency w₂
        ≡ (ok r, w₃)
      → (docs w₂ ≡ docs w) × (r ≡ fsp_id)
  lookup_outlives_other_key q r w w₁ w₂ w₃ added removed unknown covers other live looked_up =
      let (_, stored, set) =
        associate_effect st secs laws p.party_type p.party_id p.party_sub_type p.currency fsp_id w
          w₁ added in
      let (left, dropped) =
        disassociate_effect st secs laws q.party_type q.party_id q.party_sub_type q.currency fsp_id
          w₁ w₂ removed in
      let kept : cached w₂ (party_key p) ≡ cached w₁ (party_key p) = elim (dropped (party_key p)) [
        | inl same ↦ ground (arith, same, eq_iff (party_key p) (party_key q))
        | inr gone ↦ absurd (live gone)
      ] in
      (
        left
            ∙ ap (remove_first (matches (lookup_of q fsp_id))) stored
            ∙ remove_first-snoc (matches (lookup_of q fsp_id)) (docs w) (document_of p fsp_id)
                unknown covers,
        answer_of_live_entry r w₂ w₃ (kept ∙ live_entry w w₁ set (λ e. live (kept ∙ e))) looked_up,
      )
