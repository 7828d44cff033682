-- ===== src/Implementations/Finder/Choice.antt =====
-- Which oracle `getOracle` of packages/implementations-lib/src/oracles/mongo_oraclefinder.ts
-- chooses among the documents for a party type.
use account_lookup_bc.Prelude.{
  Option, none, some, Bool, List, [], ◌∷◌, map, filter, find, not, ◌≡◌, refl, sym, ap, ◌∙◌, ◌↔◌,
  ◌≢◌, inl, inr, arith, Option-cases,
}
use account_lookup_bc.Effect.{
  Error, Result, ok, err, Result-cases, no_such_oracle, unable_to_get_oracle,
}
use account_lookup_bc.Types.{Nullable, Oracle}
use account_lookup_bc.Implementations.Finder.{
  OracleDocument, OracleCollection, map_to_oracle, mapped, same_currency, first_or,
  given_or_no_such_oracle, get_oracle,
}

abbrev or_first : Option OracleDocument → List OracleDocument → Option OracleDocument
or_first (some d) l = some d
or_first none l = first_or l none

-- The first document for the currency, or else the first of all.
abbrev pub preferred : Option Nullable → List OracleDocument → Option OracleDocument
preferred currency l = or_first (find (λ d. same_currency d.currency currency) l) l

module _ (p : OracleDocument → Bool) where
  abbrev chosen : List OracleDocument → Option Oracle
  chosen l =
      first_or (map map_to_oracle (filter p l))
        (first_or (map map_to_oracle (filter (λ d. not (p d)) l)) none)

  filter-find-none :
      (l : List OracleDocument)
      → find p l ≡ none
      → (filter p l ≡ []) × (filter (λ d. not (p d)) l ≡ l)
  filter-find-none [] h = (refl, refl)
  filter-find-none (d ∷ l) h =
      (ground (arith, filter-find-none l), ground (arith, filter-find-none l))

  filter-find-some :
      (d : OracleDocument) (l : List OracleDocument) (o : Option Oracle)
      → find p l ≡ some d
      → first_or (map map_to_oracle (filter p l)) o ≡ some (map_to_oracle d)
  filter-find-some d [] o h = ground arith
  filter-find-some d (e ∷ l) o h = ground (arith, filter-find-some d l o)

chosen-preferred :
    (currency : Option Nullable) (l : List OracleDocument)
    → chosen (λ d. same_currency d.currency currency) l ≡ mapped (preferred currency l)
chosen-preferred currency l =
    let p : OracleDocument → Bool = λ d. same_currency d.currency currency in
    elim (Option-cases (find p l)) [
      | inl none_has ↦
          let (nothing, all) = filter-find-none p l none_has in
          ap
            (λ k.
              first_or (map map_to_oracle k)
                (first_or (map map_to_oracle (filter (λ d. not (p d)) l)) none))
            nothing
          ∙ ap (λ k. first_or (map map_to_oracle k) none) all
          ∙ first_or_map l
          ∙ ap (λ o. mapped (or_first o l)) (sym none_has)
      | inr (d, has) ↦ filter-find-some p d l _ has ∙ ap (λ o. mapped (or_first o l)) (sym has)
    ]
  where
    first_or_map :
        (l : List OracleDocument) → first_or (map map_to_oracle l) none ≡ mapped (first_or l none)
    first_or_map [] = refl
    first_or_map (d ∷ l) = refl

or_first_given :
    (o : Option OracleDocument) (d : OracleDocument) (l : List OracleDocument)
    → or_first o (d ∷ l) ≢ none
or_first_given (some e) d l = λ h. cc
or_first_given none d l = λ h. cc

preferred-none :
    (currency : Option Nullable) (l : List OracleDocument) → preferred currency l ≡ none → l ≡ []
preferred-none currency [] h = refl
preferred-none currency (d ∷ l) h =
    absurd (or_first_given (find (λ e. same_currency e.currency currency) (d ∷ l)) d l h)

module _ {W : Type 0} (mongo : OracleCollection W) (party_type : Nullable)
    (currency : Option Nullable) (w w' : W) where
  abbrev found : Result (List OracleDocument) × W
  found = mongo.find_by_party_type party_type w

  get_oracle_listed :
      (l : List OracleDocument)
      → found.0 ≡ ok l
      → get_oracle mongo party_type currency w
        ≡ given_or_no_such_oracle (mapped (preferred currency l)) found.1
  unfolding get_oracle
  get_oracle_listed l listed =
      ground (arith, listed)
      ∙ ap (λ o. given_or_no_such_oracle o found.1) (chosen-preferred currency l)

  get_oracle_failed :
      (e : Error)
      → found.0 ≡ err e
      → get_oracle mongo party_type currency w ≡ (err unable_to_get_oracle, found.1)
  unfolding get_oracle
  get_oracle_failed e failed = ground (arith, failed)

  get_oracle_sound :
      (o : Oracle)
      → get_oracle mongo party_type currency w ≡ (ok o, w')
      → (l : List OracleDocument) × (d : OracleDocument) × (mongo.find_by_party_type party_type w
          ≡ (ok l, w'))
        × (preferred currency l ≡ some d)
        × (o ≡ map_to_oracle d)
  get_oracle_sound o h = elim (Result-cases found.0) [
    | inl (l, listed) ↦ elim (Option-cases (preferred currency l)) [
      | inl nothing ↦ ground (arith, get_oracle_listed l listed, nothing)
      | inr (d, is) ↦
          let ended : ◌≡◌ {A = Result Oracle × W} (ok (map_to_oracle d), found.1) (ok o, w') =
            ground (arith, get_oracle_listed l listed, is) in
          (l, d, ground (arith, listed, ended), is, ground (arith, ended))
    ]
    | inr (x, failed) ↦ ground (arith, get_oracle_failed x failed)
  ]

  -- `getOracle` resolves to an oracle exactly when the collection answers and the oracle is that of
  -- the preferred document of the party type: the first one for the currency, or else the first
  -- one of all, whatever its currency.
  pub get_oracle-preferred_iff :
      (o : Oracle)
      → (get_oracle mongo party_type currency w ≡ (ok o, w')) ↔ (
          (l : List OracleDocument) × (d : OracleDocument) × (mongo.find_by_party_type party_type w
            ≡ (ok l, w'))
          × (preferred currency l ≡ some d)
          × (o ≡ map_to_oracle d))
  get_oracle-preferred_iff o = (
    get_oracle_sound o,
    λ (l, d, listed, is, same).
        get_oracle_listed l (ap (λ r. r.0) listed)
        ∙ ap (λ x. given_or_no_such_oracle (mapped x) found.1) is
        ∙ ground (arith, listed, same),
  )

  -- `getOracle` rejects with NoSuchOracleError exactly when the collection answers that it has no document
  -- for the party type: an oracle for another currency is still an oracle.
  pub get_oracle_no_such_iff :
      (get_oracle mongo party_type currency w ≡ (err no_such_oracle, w'))
      ↔ (mongo.find_by_party_type party_type w ≡ (ok [], w'))
  get_oracle_no_such_iff = (
    (λ h. elim (Result-cases found.0) [
      | inl (l, listed) ↦ elim (Option-cases (preferred currency l)) [
        | inl nothing ↦
            ground (arith, listed, get_oracle_listed l listed, nothing, preferred-none currency l)
        | inr (d, is) ↦ ground (arith, get_oracle_listed l listed, is)
      ]
      | inr (x, failed) ↦ ground (arith, get_oracle_failed x failed)
    ]),
    λ h. get_oracle_listed [] (ap (λ r. r.0) h) ∙ ground (arith, h),
  )
