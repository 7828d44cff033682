-- ===== src/Aggregate/Oracles.antt =====
-- Choosing the oracle adapter for a party, and asking it for the FSP: `_getOracleAdapter` and
-- `_getParticipantIdFromOracle` of packages/domain-lib/src/aggregate.ts.
use account_lookup_bc.Prelude.{String, Option, none, some, List, find, ◌==◌, if◌then◌else◌}
use account_lookup_bc.Effect.{
  Action, pure, throw, or_throw, ◌>>=◌, participant_not_found, unable_to_get_participant_fsp_id,
  unable_to_get_oracle_from_oracle_finder, no_such_oracle_adapter, oracle_not_found,
}
use account_lookup_bc.Types.{Nullable, Oracle}
use account_lookup_bc.Services.{OracleAdapter, Services}

module _ {W : Type 0} where
  -- `this._oracleProvidersAdapters.find((adapter) => adapter.oracleId === id)`
  abbrev pub find_adapter : String → List (OracleAdapter W) → Option (OracleAdapter W)
  find_adapter id adapters = find (λ a. a.oracle_id == id) adapters

  abbrev pub adapter_of : List (OracleAdapter W) → Option Oracle → Action W (OracleAdapter W)
  adapter_of adapters none = throw oracle_not_found
  adapter_of adapters (some oracle) = elim (find_adapter oracle.id adapters) [
    | none ↦ throw no_such_oracle_adapter
    | some adapter ↦ pure adapter
  ]

  abbrev pub required_fsp_id : Nullable → Action W String
  required_fsp_id none = throw participant_not_found
  required_fsp_id (some id) = if id == "" then throw participant_not_found else pure id

module _ {W : Type 0} (env : Services W) (adapters : List (OracleAdapter W)) where
  -- `_getOracleAdapter`
  unfoldable pub get_oracle_adapter : Nullable → Nullable → Action W (OracleAdapter W)
  get_oracle_adapter party_type currency = do
    oracle ←
        or_throw (env.finder.get_oracle party_type currency) unable_to_get_oracle_from_oracle_finder
    adapter_of adapters oracle

  -- `_getParticipantIdFromOracle`, on the party id, type and sub type and the currency
  unfoldable pub get_participant_id_from_oracle :
      Nullable → Nullable → Nullable → Nullable → Action W String
  get_participant_id_from_oracle party_id party_type party_sub_type currency = do
    adapter ← get_oracle_adapter party_type currency
    fsp_id ←
        or_throw (adapter.get_participant_fsp_id party_type party_id party_sub_type currency)
          unable_to_get_participant_fsp_id
    required_fsp_id fsp_id
