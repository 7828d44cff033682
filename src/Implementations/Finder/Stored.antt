-- ===== src/Implementations/Finder/Stored.antt =====
-- The oracles that are found after one has been added or removed, over the documented behaviour of
-- the collection of packages/implementations-lib/src/oracles/mongo_oraclefinder.ts.
use account_lookup_bc.Prelude.{
  String, Option, none, some, Bool, true, List, [], ◌∷◌, ◌++◌, ℕ, find, find-append,
  nullable_eq_refl, nullable_eq, ◌&&◌, ◌==◌, ◌≡◌, refl, sym, ap, ◌∙◌, ◌≢◌, inl, inr, arith, eq_iff,
  if◌then◌else◌,
}
use account_lookup_bc.Effect.{ok, Result-cases}
use account_lookup_bc.Types.{Oracle}
use account_lookup_bc.Implementations.Finder.{
  OracleDocument, OracleFilter, same_oracle, by_id, by_name, OracleCollection, map_to_oracle,
  mapped, add_oracle, remove_oracle, get_oracle_by_id,
}

-- When a document matches a filter of `findOne`. A null matches a field that is null or missing.
abbrev pub selects : OracleFilter → OracleDocument → Bool
selects (same_oracle o) d =
    nullable_eq d.party_type o.party_type
    && (d.oracle_type == o.oracle_type
        && (d.id == o.id && (d.name == o.name && nullable_eq d.endpoint o.endpoint)))
selects (by_id id) d = d.id == id
selects (by_name name) d = d.name == name

-- The documents without the first one of that id, and how many were taken out.
abbrev pub without_first : String → List OracleDocument → List OracleDocument
without_first id [] = []
without_first id (d ∷ l) = if d.id == id then l else d ∷ without_first id l

abbrev pub count_of : Option OracleDocument → ℕ
count_of none = 0
count_of (some d) = 1

-- The documented behaviour, for the calls that resolve; an insertion appends a document that maps
-- back to the oracle.
pub record CollectionLaws {W : Type 0} (mongo : OracleCollection W) : Type 0 where
  pub docs : W → List OracleDocument
  pub find_one_law :
      (f : OracleFilter) (r : Option OracleDocument) (w w' : W)
      → mongo.find_one f w ≡ (ok r, w')
      → (r ≡ find (selects f) (docs w)) × (docs w' ≡ docs w)
  pub insert_one_law :
      (o : Oracle) (w w' : W)
      → mongo.insert_one o w ≡ (ok tt, w')
      → (d : OracleDocument) × (map_to_oracle d ≡ o) × (docs w' ≡ docs w ++ d ∷ [])
  pub delete_one_law :
      (id : String) (n : ℕ) (w w' : W)
      → mongo.delete_one id w ≡ (ok n, w')
      → (n ≡ count_of (find (selects (by_id id)) (docs w))) × (docs w' ≡ without_first id (docs w))

module _ {W : Type 0} (mongo : OracleCollection W) (laws : CollectionLaws mongo) where
  open laws use {docs, find_one_law, insert_one_law, delete_one_law}

  add_oracle_resolved :
      (o : Oracle) (w w' : W)
      → add_oracle mongo o w ≡ (ok tt, w')
      → (find (selects (same_oracle o)) (docs w) ≡ none)
        × (d : OracleDocument) × (map_to_oracle d ≡ o)
        × (docs w' ≡ docs w ++ d ∷ [])
  unfolding add_oracle
  add_oracle_resolved o w w' h =
      let found = mongo.find_one (same_oracle o) w in
      elim (Result-cases found.0) [
        | inl (none, nothing) ↦ elim (Result-cases (mongo.insert_one o found.1).0) [
          | inl (_, done) ↦
              let (is, still) =
                find_one_law (same_oracle o) none w found.1 (ground (arith, nothing)) in
              let (d, maps, now) = insert_one_law o found.1 w' (ground (arith, nothing, done)) in
              (sym is, d, maps, now ∙ ap (λ l. l ++ d ∷ []) still)
          | inr (x, failed) ↦ ground (arith, nothing, failed)
        ]
        | inl (some d, present) ↦ ground (arith, present)
        | inr (x, failed) ↦ ground (arith, failed)
      ]

  remove_oracle_resolved :
      (id : String) (w w' : W)
      → remove_oracle mongo id w ≡ (ok tt, w')
      → (find (selects (by_id id)) (docs w) ≢ none) × (docs w' ≡ without_first id (docs w))
  unfolding remove_oracle
  remove_oracle_resolved id w w' h =
      let out = mongo.delete_one id w in
      elim (Result-cases out.0) [
        | inl (n, deleted) ↦
            let (count, left) = delete_one_law id n w out.1 (ground (arith, deleted)) in
            (
              (λ nothing. ground (arith, deleted, count, nothing)),
              ap docs (ground (arith, deleted)) ∙ left,
            )
        | inr (x, failed) ↦ ground (arith, failed)
      ]

  selects_own :
      (o : Oracle) (d : OracleDocument) → map_to_oracle d ≡ o → selects (same_oracle o) d ≡ true
  selects_own o d maps = ground (
    arith,
    sym maps,
    nullable_eq_refl d.party_type,
    nullable_eq_refl d.endpoint,
    eq_iff d.oracle_type d.oracle_type,
    eq_iff d.id d.id,
    eq_iff d.name d.name,
  )

  get_oracle_by_id_answer :
      (id : String) (r : Option Oracle) (w w' : W)
      → get_oracle_by_id mongo id w ≡ (ok r, w')
      → r ≡ mapped (find (selects (by_id id)) (docs w))
  unfolding get_oracle_by_id
  get_oracle_by_id_answer id r w w' h = elim (Result-cases (mongo.find_one (by_id id) w).0) [
    | inl (o, found) ↦
        let (is, still) =
          find_one_law (by_id id) o w (mongo.find_one (by_id id) w).1 (ground (arith, found)) in
        let same : r ≡ mapped o = ground (arith, found) in same ∙ ap mapped is
    | inr (x, failed) ↦ ground (arith, failed)
  ]

  -- Round trip: where the collection behaves as documented and has no document of the oracle's id,
  -- an oracle that `addOracle` has stored is what a `getOracleById` that resolves answers with.
  pub get_oracle_by_id-add_oracle :
      (o : Oracle) (r : Option Oracle) (w w₁ w₂ : W)
      → find (selects (by_id o.id)) (docs w) ≡ none
      → add_oracle mongo o w ≡ (ok tt, w₁)
      → get_oracle_by_id mongo o.id w₁ ≡ (ok r, w₂)
      → r ≡ some o
  get_oracle_by_id-add_oracle o r w w₁ w₂ unknown added asked =
      let (new, d, maps, now) = add_oracle_resolved o w w₁ added in
      get_oracle_by_id_answer o.id r w₁ w₂ asked
      ∙ ap (λ l. mapped (find (selects (by_id o.id)) l)) now
      ∙ ap mapped (find-append (selects (by_id o.id)) (docs w) (d ∷ []) unknown)
      ∙ ground (arith, maps, eq_iff d.id o.id)

  -- Where the collection behaves as documented, an oracle that has been stored is not stored a
  -- second time: the next `addOracle` of it does not resolve.
  pub add_oracle_again :
      (o : Oracle) (w w₁ w₂ : W)
      → add_oracle mongo o w ≡ (ok tt, w₁)
      → add_oracle mongo o w₁ ≢ (ok tt, w₂)
  add_oracle_again o w w₁ w₂ added = λ again.
      let (new, d, maps, now) = add_oracle_resolved o w w₁ added in
      let (new', d', maps', now') = add_oracle_resolved o w₁ w₂ again in
      let has : find (selects (same_oracle o)) (docs w ++ d ∷ []) ≡ some d =
        find-append (selects (same_oracle o)) (docs w) (d ∷ []) new
        ∙ ap (λ b. if b then some d else none) (selects_own o d maps) in
      let clash : none ≡ some d = sym new' ∙ ap (find (selects (same_oracle o))) now ∙ has in cc

  find-without_first :
      (id j : String) (l : List OracleDocument)
      → j ≢ id
      → find (selects (by_id j)) (without_first id l) ≡ find (selects (by_id j)) l
  find-without_first id j [] other_id = refl
  find-without_first id j (d ∷ l) other_id =
      ground (arith, find-without_first id j l other_id, eq_iff d.id id, eq_iff d.id j)

  -- Where the collection behaves as documented, `removeOracle` resolves only if a document had the
  -- id, and every other id is then answered as before.
  pub get_oracle_by_id-remove_oracle :
      (id j : String) (r r' : Option Oracle) (w w₁ w₂ w₃ : W)
      → remove_oracle mongo id w ≡ (ok tt, w₁)
      → get_oracle_by_id mongo j w ≡ (ok r, w₂)
      → get_oracle_by_id mongo j w₁ ≡ (ok r', w₃)
      → (find (selects (by_id id)) (docs w) ≢ none) × (j ≢ id → r' ≡ r)
  get_oracle_by_id-remove_oracle id j r r' w w₁ w₂ w₃ removed before after =
      let (present, left) = remove_oracle_resolved id w w₁ removed in
      (
        present,
        λ differ.
            get_oracle_by_id_answer j r' w₁ w₃ after
            ∙ ap (λ l. mapped (find (selects (by_id j)) l)) left
            ∙ ap mapped (find-without_first id j (docs w) differ)
            ∙ sym (get_oracle_by_id_answer j r w w₂ before),
      )
