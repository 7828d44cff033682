-- ===== src/Aggregate/Admin.antt =====
-- The aggregate's own state, and the operations of packages/domain-lib/src/aggregate.ts that the
-- start of the service and the HTTP routes call.
use account_lookup_bc.Prelude.{
  String, Option, none, some, Bool, false, not, List, [], ◌∷◌, ◌++◌, ◌==◌, is_some, filter,
  if◌then◌else◌, Number,
}
use account_lookup_bc.Effect.{
  Error, Result, ok, err, Action, pure, throw, or_throw, guard, ◌>>=◌, ◌>>◌, participant_not_found,
  unable_to_get_participant_fsp_id, duplicate_oracle, unable_to_remove_oracle, oracle_not_found,
  unable_to_get_oracle_associations,
}
use account_lookup_bc.Types.{
  Nullable, Oracle, AddOracleDto, Association, ParticipantLookup, AssociationsSearchResults,
  SearchKeywords,
}
use account_lookup_bc.Services.{OracleAdapter, Services}
use account_lookup_bc.Aggregate.Oracles.{
  find_adapter, get_oracle_adapter, get_participant_id_from_oracle,
}

-- `_oracleProvidersAdapters`, and the world outside.
pub record State (W : Type 0) : Type 0 where
  pub adapters : List (OracleAdapter W)
  pub world : W

-- What `getAccountLookUp` throws for each error.
abbrev pub lookup_error : Error → Error
lookup_error participant_not_found = participant_not_found
lookup_error _ = unable_to_get_participant_fsp_id

abbrev pub rethrow_lookup : {W A : Type 0} → Action W A → Action W A
rethrow_lookup m w =
    let (r, w') = m w in elim r [ ok a ↦ (ok a, w') | err e ↦ (err (lookup_error e), w') ]

module _ {W : Type 0} where
  -- A call that leaves the adapters alone.
  abbrev pub on_world : {A : Type 0} → Action W A → Action (State W) A
  on_world m s = let (r, w) = m s.world in (r, record s { world = w })

  abbrev pub read_adapters : Action (State W) (List (OracleAdapter W))
  read_adapters s = (ok s.adapters, s)

  abbrev pub write_adapters : List (OracleAdapter W) → Action (State W) (Unit {0})
  write_adapters l s = (ok tt, record s { adapters = l })

  -- `this._oracleProvidersAdapters.push(adapter)`
  abbrev pub push_adapter : OracleAdapter W → Action (State W) (Unit {0})
  push_adapter a s = (ok tt, record s { adapters = s.adapters ++ a ∷ [] })

  -- A synchronous call that may throw.
  abbrev pub from_result : {A : Type 0} → Result A → Action (State W) A
  from_result r s = (r, s)

  -- The loop of `destroy`
  unfoldable pub destroy_adapters : List (OracleAdapter W) → Action W (Unit {0})
  destroy_adapters [] = pure tt
  destroy_adapters (a ∷ rest) = a.destroy >> destroy_adapters rest

module _ {W : Type 0} (env : Services W) where
  -- The loop of `init`
  unfoldable pub init_adapters : List Oracle → Action (State W) (Unit {0})
  init_adapters [] = pure tt
  init_adapters (oracle ∷ rest) = do
    adapter ← from_result (env.create oracle)
    on_world adapter.init
    push_adapter adapter
    init_adapters rest

  -- `init`
  unfoldable pub init : Action (State W) (Unit {0})
  init = do
    on_world env.finder.init
    oracles ← on_world env.finder.get_all_oracles
    init_adapters oracles

  -- `destroy`
  unfoldable pub destroy : Action (State W) (Unit {0})
  destroy = do
    on_world env.finder.destroy
    adapters ← read_adapters
    on_world (destroy_adapters adapters)

  -- `oracle.id && (await this._oracleFinder.getOracleById(oracle.id))`
  unfoldable pub is_id_taken : Nullable → Action W Bool
  is_id_taken none = pure false
  is_id_taken (some id) =
      if id == ""
      then pure false
      else (do found ← env.finder.get_oracle_by_id id; pure (is_some found))

  -- The id of the request, or a fresh one.
  unfoldable pub given_or_new_id : Nullable → Action W String
  given_or_new_id none = env.random_uuid
  given_or_new_id (some id) = if id == "" then env.random_uuid else pure id

  abbrev pub new_oracle : AddOracleDto → String → Oracle
  new_oracle dto id = record {
    id = id;
    name = dto.name;
    oracle_type = dto.oracle_type;
    party_type = dto.party_type;
    currency = dto.currency;
    endpoint = if dto.oracle_type == "builtin" then none else dto.endpoint;
  }

  -- `addOracle`
  unfoldable pub add_oracle : AddOracleDto → Action (State W) String
  add_oracle dto = do
    taken ← on_world (is_id_taken dto.id)
    guard (not taken) duplicate_oracle
    id ← on_world (given_or_new_id dto.id)
    named ← on_world (env.finder.get_oracle_by_name dto.name)
    guard (not (is_some named)) duplicate_oracle
    adapter ← from_result (env.create (new_oracle dto id))
    on_world (env.finder.add_oracle (new_oracle dto id))
    on_world adapter.init
    push_adapter adapter
    pure id

  -- `removeOracle`
  unfoldable pub remove_oracle : String → Action (State W) (Unit {0})
  remove_oracle id = do
    oracle ← on_world (env.finder.get_oracle_by_id id)
    guard (is_some oracle) oracle_not_found
    on_world (or_throw (env.finder.remove_oracle id) unable_to_remove_oracle)
    adapters ← read_adapters
    write_adapters (filter (λ a. not (a.oracle_id == id)) adapters)

  -- `getAllOracles`
  abbrev pub get_all_oracles : Action (State W) (List Oracle)
  get_all_oracles = on_world env.finder.get_all_oracles

  -- `getOracleById`
  abbrev pub get_oracle_by_id : String → Action (State W) (Option Oracle)
  get_oracle_by_id id = on_world (env.finder.get_oracle_by_id id)

  abbrev health_of : Option (OracleAdapter W) → Action W Bool
  health_of none = throw oracle_not_found
  health_of (some a) = a.health_check

  -- `healthCheck`
  unfoldable pub health_check : String → Action (State W) Bool
  health_check id = do adapters ← read_adapters; on_world (health_of (find_adapter id adapters))

  -- The loop of the three queries over the oracles: the adapter for the party type and currency of
  -- each oracle is asked, and its answer takes the place of the one before.
  unfoldable pub ask_oracles :
      {A : Type 0}
      → List (OracleAdapter W)
      → (OracleAdapter W → Action W A)
      → List Oracle
      → A
      → Action W A
  ask_oracles adapters ask [] answer = pure answer
  ask_oracles adapters ask (oracle ∷ rest) answer = do
    adapter ←
        or_throw (get_oracle_adapter env adapters oracle.party_type oracle.currency)
          oracle_not_found
    found ← or_throw (ask adapter) unable_to_get_oracle_associations
    ask_oracles adapters ask rest found

  -- `getBuiltInOracleAssociations`; `flat` leaves a list of records as it is
  unfoldable pub get_builtin_oracle_associations : Action (State W) (List Association)
  get_builtin_oracle_associations = do
    oracles ← on_world env.finder.get_all_oracles
    adapters ← read_adapters
    on_world (
        ask_oracles adapters (λ a. a.get_all_associations)
          (filter (λ o. o.oracle_type == "builtin") oracles) [])

  -- `getAllOracleAssociations`; `none` is the empty array that is returned if there is no oracle
  unfoldable pub get_all_oracle_associations :
      Nullable
      → Nullable
      → Nullable
      → Nullable
      → Nullable
      → Option Number
      → Option Number
      → Action (State W) (Option AssociationsSearchResults)
  get_all_oracle_associations fsp_id party_id party_type party_sub_type currency page_index
        page_size =
      do
        oracles ← on_world env.finder.get_all_oracles
        adapters ← read_adapters
        on_world (
            ask_oracles adapters
              (λ a. (do
                results ←
                    a.search_associations fsp_id party_id party_type party_sub_type currency
                      page_index page_size
                pure (some results)))
              oracles none)

  -- `getSearchKeywords`
  unfoldable pub get_search_keywords : Action (State W) (List SearchKeywords)
  get_search_keywords = do
    oracles ← on_world env.finder.get_all_oracles
    adapters ← read_adapters
    on_world (ask_oracles adapters (λ a. a.get_search_keywords) oracles [])

  -- `getAccountLookUp`
  unfoldable pub get_account_lookup : ParticipantLookup → Action (State W) String
  get_account_lookup p = do
    adapters ← read_adapters
    on_world (
        rethrow_lookup (
          get_participant_id_from_oracle env adapters p.party_id p.party_type p.party_sub_type
            p.currency))
