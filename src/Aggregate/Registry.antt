-- ===== src/Aggregate/Registry.antt =====
-- The list of adapters under the operations of packages/domain-lib/src/aggregate.ts that change it.
use account_lookup_bc.Prelude.{
  String, Option, none, Bool, true, false, not, List, [], ◌∷◌, ◌++◌, map, ◌==◌, filter, ◌≡◌, ◌≢◌,
  sym, ap, ◌∙◌, inl, inr, arith, eq_iff, if◌then◌else◌,
}
use mathlib.Core.List.{append-nil, append_assoc, map-append}
use account_lookup_bc.Effect.{Error, Result, ok, err, Result-cases}
use account_lookup_bc.Types.{Oracle, AddOracleDto}
use account_lookup_bc.Services.{OracleAdapter, Services}
use account_lookup_bc.Aggregate.Oracles.{find_adapter}
use account_lookup_bc.Aggregate.Admin.{
  State, init_adapters, init, is_id_taken, given_or_new_id, add_oracle, remove_oracle,
}

module _ {W : Type 0} (env : Services W) where
  -- The oracle is the one that the request describes.
  pub record IsRequested (dto : AddOracleDto) (id : String) (o : Oracle) : Type 0 where
    pub same_id : o.id ≡ id
    pub name : o.name ≡ dto.name
    pub oracle_type : o.oracle_type ≡ dto.oracle_type
    pub party_type : o.party_type ≡ dto.party_type
    pub currency : o.currency ≡ dto.currency
    pub builtin_endpoint : dto.oracle_type ≡ "builtin" → o.endpoint ≡ none
    pub endpoint : dto.oracle_type ≢ "builtin" → o.endpoint ≡ dto.endpoint

  -- The calls of an `addOracle` that resolves, each on the world that the one before has left.
  pub record IsAdded (dto : AddOracleDto) (id : String) (s s' : State W) : Type 0 where
    pub oracle : Oracle
    pub requested : IsRequested dto id oracle
    pub adapter : OracleAdapter W
    pub created : env.create oracle ≡ ok adapter
    pub w₁ : W
    pub free : is_id_taken env dto.id s.world ≡ (ok false, w₁)
    pub w₂ : W
    pub named : given_or_new_id env dto.id w₁ ≡ (ok id, w₂)
    pub w₃ : W
    pub unknown : env.finder.get_oracle_by_name dto.name w₂ ≡ (ok none, w₃)
    pub w₄ : W
    pub stored : env.finder.add_oracle oracle w₃ ≡ (ok tt, w₄)
    pub initialised : adapter.init w₄ ≡ (ok tt, s'.world)
    pub registered : s'.adapters ≡ s.adapters ++ adapter ∷ []

  module _ (dto : AddOracleDto) (s s' : State W) (id : String)
      (h : add_oracle env dto s ≡ (ok id, s')) where
    abbrev checked : Result Bool × W
    checked = is_id_taken env dto.id s.world

    abbrev identified : Result String × W
    identified = given_or_new_id env dto.id checked.1

    abbrev searched : Result (Option Oracle) × W
    searched = env.finder.get_oracle_by_name dto.name identified.1

    free_id : checked.0 ≡ ok false
    unfolding add_oracle
    free_id = elim (Result-cases checked.0) [
      | inl (true, is) ↦ ground (arith, is, h)
      | inl (false, is) ↦ is
      | inr (e, is) ↦ ground (arith, is, h)
    ]

    same_id : identified.0 ≡ ok id
    unfolding add_oracle
    same_id = elim (Result-cases identified.0) [
      | inl (i, is) ↦ ground (arith, free_id, is, h)
      | inr (e, is) ↦ ground (arith, free_id, is, h)
    ]

  -- What a call of `addOracle` has done, by how it ended.
  abbrev pub AddOutcome : AddOracleDto → State W → Result String → State W → Type 0
  AddOutcome dto s (ok id) s' = IsAdded dto id s s'
  AddOutcome dto s (err e) s' = s'.adapters ≡ s.adapters

  remove_oracle_rejected :
      (id : String) (s s' : State W) (e : Error)
      → remove_oracle env id s ≡ (err e, s')
      → s'.adapters ≡ s.adapters
  unfolding remove_oracle
  remove_oracle_rejected id s s' e h = ground arith

  remove_oracle_resolved :
      (id : String) (s s' : State W)
      → remove_oracle env id s ≡ (ok tt, s')
      → s'.adapters ≡ filter (λ a. not (a.oracle_id == id)) s.adapters
  unfolding remove_oracle
  remove_oracle_resolved id s s' h = ground arith

  find_adapter-filter :
      (id j : String) (l : List (OracleAdapter W))
      → find_adapter j (filter (λ a. not (a.oracle_id == id)) l)
        ≡ (if j == id then none else find_adapter j l)
  find_adapter-filter id j [] = ground arith
  find_adapter-filter id j (a ∷ l) =
      ground (
        arith,
        eq_iff a.oracle_id id,
        eq_iff a.oracle_id j,
        eq_iff j id,
        find_adapter-filter id j l,
      )

  -- What a call of `removeOracle` has done to the adapters, by how it ended.
  abbrev pub RemoveOutcome : String → State W → Result (Unit {0}) → State W → Type 0
  RemoveOutcome id s (ok _) s' =
      (j : String)
      → find_adapter j s'.adapters ≡ (if j == id then none else find_adapter j s.adapters)
  RemoveOutcome id s (err e) s' = s'.adapters ≡ s.adapters

  -- After `removeOracle` has resolved no adapter answers to the id, and every other id finds the
  -- adapter that it found before; where it rejects, the list is what it was.
  pub remove_oracle-RemoveOutcome :
      (id : String) (s s' : State W) (r : Result (Unit {0}))
      → remove_oracle env id s ≡ (r, s')
      → RemoveOutcome id s r s'
  remove_oracle-RemoveOutcome id s s' (ok _) h = λ j.
      ap (find_adapter j) (remove_oracle_resolved id s s' h) ∙ find_adapter-filter id j s.adapters
  remove_oracle-RemoveOutcome id s s' (err e) h = remove_oracle_rejected id s s' e h

  -- The factory gives every adapter the id of its oracle.
  module _
      (create_id : (o : Oracle) (a : OracleAdapter W)
        → env.create o ≡ ok a
        → a.oracle_id ≡ o.id) where
    init_adapters_resolved :
        (oracles : List Oracle) (s s' : State W)
        → init_adapters env oracles s ≡ (ok tt, s')
        → map (λ a. a.oracle_id) s'.adapters
          ≡ map (λ a. a.oracle_id) s.adapters ++ map (λ o. o.id) oracles
    unfolding init_adapters
    init_adapters_resolved [] s s' h =
        let same : s ≡ s' = ground arith in rw (← same) (sym (append-nil _))
    init_adapters_resolved (o ∷ rest) s s' h = elim (Result-cases (env.create o)) [
      | inl (a, created) ↦ elim (Result-cases (a.init s.world).0) [
        | inl (_, started) ↦
            let s₁ : State W = record {
              adapters = s.adapters ++ a ∷ [];
              world = (a.init s.world).1;
            } in
            init_adapters_resolved rest s₁ s' (ground arith)
            ∙ (simp (map-append, append_assoc, create_id o a created))
        | inr (x, failed) ↦ ground arith
      ]
      | inr (x, refused) ↦ ground arith
    ]

    -- Where the factory gives every adapter the id of its oracle, a start that resolves has
    -- registered one adapter for each oracle that the finder listed, in that order and behind the
    -- adapters that were there.
    pub init_resolved :
        (s s' : State W)
        → init env s ≡ (ok tt, s')
        → (oracles : List Oracle) × (w₁ : W) × (w₂ : W) × (env.finder.init s.world ≡ (ok tt, w₁))
          × (env.finder.get_all_oracles w₁ ≡ (ok oracles, w₂))
          × (map (λ a. a.oracle_id) s'.adapters
              ≡ map (λ a. a.oracle_id) s.adapters ++ map (λ o. o.id) oracles)
    unfolding init
    init_resolved s s' h =
        let w₁ = (env.finder.init s.world).1 in
        let listed = env.finder.get_all_oracles w₁ in
        elim (Result-cases (env.finder.init s.world).0) [
          | inl (_, started) ↦ elim (Result-cases listed.0) [
            | inl (oracles, got) ↦ (
              oracles,
              w₁,
              listed.1,
              ground arith,
              ground arith,
              init_adapters_resolved oracles (record s { world = listed.1 }) s' (ground arith),
            )
            | inr (x, failed) ↦ ground arith
          ]
          | inr (x, failed) ↦ ground arith
        ]
