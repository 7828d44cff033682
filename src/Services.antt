-- ===== src/Services.antt =====
-- The interfaces of packages/domain-lib/src/interfaces/infrastructure.ts, as records of actions on
-- the state `W` of the world outside the aggregate: databases, caches, other services.
use account_lookup_bc.Prelude.{Number, String, Bool, Option, List}
use account_lookup_bc.Effect.{Result, Action}
use account_lookup_bc.Types.{
  Nullable, Oracle, Association, AssociationsSearchResults, SearchKeywords,
}

-- The fields of the participants service's `IParticipant` that the aggregate reads.
pub record Participant : Type 0 where
  pub id : String
  pub approved : Bool
  pub is_active : Bool

-- `IOracleFinder`
pub record OracleFinder (W : Type 0) : Type 0 where
  pub init : Action W (Unit {0})
  pub destroy : Action W (Unit {0})
  pub add_oracle : Oracle → Action W (Unit {0})
  pub remove_oracle : String → Action W (Unit {0})
  pub get_all_oracles : Action W (List Oracle)
  pub get_oracle_by_id : String → Action W (Option Oracle)
  pub get_oracle_by_name : String → Action W (Option Oracle)
  pub get_oracle : Nullable → Nullable → Action W (Option Oracle)

-- `IOracleProviderAdapter`. The arguments of the lookup are the party type, the party id, the party
-- sub type and the currency; the two associations take the FSP id before them.
pub record OracleAdapter (W : Type 0) : Type 0 where
  pub oracle_id : String
  pub oracle_type : String
  pub init : Action W (Unit {0})
  pub destroy : Action W (Unit {0})
  pub health_check : Action W Bool
  pub get_participant_fsp_id : Nullable → Nullable → Nullable → Nullable → Action W Nullable
  pub associate_participant :
      Nullable → Nullable → Nullable → Nullable → Nullable → Action W (Unit {0})
  pub disassociate_participant :
      Nullable → Nullable → Nullable → Nullable → Nullable → Action W (Unit {0})
  pub get_all_associations : Action W (List Association)
  pub search_associations :
      Nullable
      → Nullable
      → Nullable
      → Nullable
      → Nullable
      → Option Number
      → Option Number
      → Action W AssociationsSearchResults
  pub get_search_keywords : Action W (List SearchKeywords)

-- The collaborators that the aggregate's constructor takes: the finder, the factory's `create`
-- (which is synchronous and may throw) and the participant service; and what it takes from
-- libraries: `randomUUID` and the constant `MessageTypes.DOMAIN_EVENT`.
pub record Services (W : Type 0) : Type 0 where
  pub finder : OracleFinder W
  pub create : Oracle → Result (OracleAdapter W)
  pub get_participant_info : String → Action W (Option Participant)
  pub random_uuid : Action W String
  pub domain_event : String
