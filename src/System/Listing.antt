-- ===== src/System/Listing.antt =====
-- The listing of all built-in associations by the aggregate of packages/domain-lib, on the adapters
-- of packages/implementations-lib: it is the collection.
use account_lookup_bc.Prelude.{
  String, Option, none, List, [], ◌∷◌, map, filter, ℕ, ◌==◌, ◌≡◌, ◌≢◌, refl, subst, ap, ◌∙◌, ◌⊎◌,
  inl, inr, arith,
}
use account_lookup_bc.Effect.{ok, Result-cases}
use account_lookup_bc.Types.{Oracle, Association}
use account_lookup_bc.Services.{OracleAdapter, Services}
use account_lookup_bc.Implementations.Store.{Store, StoreLaws}
use account_lookup_bc.Implementations.Builtin.{get_all_associations}
use account_lookup_bc.Implementations.Builtin.Search.{SearchStore}
use account_lookup_bc.Implementations.Builtin.Provider.{builtin_provider}
use account_lookup_bc.Implementations.Builtin.Quiet.{IsQuiet, IsQuiet-trans}
use account_lookup_bc.Aggregate.Oracles.{get_oracle_adapter}
use account_lookup_bc.Aggregate.Admin.{State, ask_oracles, get_builtin_oracle_associations}
use account_lookup_bc.Aggregate.Answer.{IsAdapterFor, get_oracle_adapter-IsAdapterFor_iff}
use account_lookup_bc.System.Builtin.{IsBuiltinSystem, IsAdapterFor-IsQuiet}

-- What a listing shows of a document: all but the sub type.
abbrev pub shown_documents : List Association → List Association
shown_documents l = map (λ (a : Association). record a { party_sub_type = none }) l

module _ {W : Type 0} (env : Services W) (adapters : List (OracleAdapter W)) (st : Store W)
    (search : SearchStore W) (secs : ℕ) (laws : StoreLaws st)
    (system : IsBuiltinSystem env adapters st search secs laws) where
  open laws use {docs}

  -- One adapter lists the collection.
  adapter_lists :
      (a : OracleAdapter W) (t c : Option String) (r : List Association) (w w₁ w₂ : W)
      → IsAdapterFor env adapters t c w a w₁
      → a.get_all_associations w₁ ≡ (ok r, w₂)
      → (r ≡ shown_documents (docs w)) × IsQuiet st laws w w₂
  unfolding builtin_provider get_all_associations
  adapter_lists a t c r w w₁ w₂ found h =
      let (o, is) = system.all_builtin found.oracle.id a found.registered in
      let quiet = IsAdapterFor-IsQuiet env adapters st search secs laws system t c a w w₁ found in
      let listed : get_all_associations st secs w₁ ≡ (ok r, w₂) =
        subst (λ (x : OracleAdapter W). x.get_all_associations w₁ ≡ (ok r, w₂)) is h in
      elim (Result-cases (st.find_all w₁).0) [
        | inl (l, got) ↦
            let (all, same, expired) = laws.find_all_law l w₁ w₂ (ground (arith, listed, got)) in
            (
              ground (arith, listed, got, all, quiet.same_docs),
              IsQuiet-trans st laws w w₁ w₂ quiet (record { same_docs = same; expired = expired }),
            )
        | inr (e, failed) ↦ ground (arith, listed, failed)
      ]

  ask_lists :
      (os : List Oracle) (start answer : List Association) (w w' : W)
      → ask_oracles env adapters (λ a. a.get_all_associations) os start w ≡ (ok answer, w')
      → (os ≡ []) × (answer ≡ start) ⊎ (answer ≡ shown_documents (docs w))
  unfolding ask_oracles
  ask_lists [] start answer w w' h = inl (refl, ground (arith, h))
  ask_lists (o ∷ rest) start answer w w' h =
      let out = get_oracle_adapter env adapters o.party_type o.currency w in
      elim (Result-cases out.0) [
        | inr (e, failed) ↦ ground (arith, h, failed)
        | inl (a, found) ↦
            let chosen =
              (get_oracle_adapter-IsAdapterFor_iff env adapters o.party_type o.currency w out.1 a).0
                (ground (arith, found)) in
            let asked = a.get_all_associations out.1 in
            elim (Result-cases asked.0) [
              | inr (e, failed) ↦ ground (arith, h, found, failed)
              | inl (r, got) ↦
                  let (is, quiet) =
                    adapter_lists a o.party_type o.currency r w out.1 asked.1 chosen
                      (ground (arith, got)) in
                  elim (ask_lists rest r answer asked.1 w' (ground (arith, h, found, got))) [
                    | inl (_, last) ↦ inr (last ∙ is)
                    | inr all ↦ inr (all ∙ ap shown_documents quiet.same_docs)
                  ]
            ]
      ]

  -- Where all adapters are built in, the servers behave as documented and at least one built-in
  -- oracle is listed, the listing of the built-in associations, if it resolves, is every document of
  -- the collection, in its order, without the sub types: each oracle's answer takes the place of the
  -- one before, but all of them are the same.
  pub builtin_associations_lem :
      (s s' : State W) (l : List Oracle) (w : W) (answer : List Association)
      → s.adapters ≡ adapters
      → env.finder.get_all_oracles s.world ≡ (ok l, w)
      → filter (λ o. o.oracle_type == "builtin") l ≢ []
      → get_builtin_oracle_associations env s ≡ (ok answer, s')
      → answer ≡ shown_documents (docs w)
  unfolding get_builtin_oracle_associations
  builtin_associations_lem s s' l w answer same listed some_builtin h =
      elim (ask_lists (filter (λ o. o.oracle_type == "builtin") l) [] answer w s'.world
        (ground (arith, h, listed, same))) [
          | inl (none_builtin, _) ↦ absurd (some_builtin none_builtin)
          | inr is ↦ is
        ]
