-- ===== src/Tests/Admin.antt =====
-- The choice of an adapter, the list of adapters and the queries on the concrete services.
use account_lookup_bc.Prelude.{none, some, [], ◌∷◌, ℕ, ◌≡◌, refl, false, is_truthy, arith}
use account_lookup_bc.Effect.{ok}
use account_lookup_bc.Types.{Nullable, Oracle, AddOracleDto, ParticipantLookup}
use account_lookup_bc.Services.{OracleAdapter}
use account_lookup_bc.Aggregate.Oracles.{get_oracle_adapter, get_participant_id_from_oracle}
use account_lookup_bc.Aggregate.Admin.{State, remove_oracle, get_account_lookup}
use account_lookup_bc.Aggregate.Answer.{IsReply}
use account_lookup_bc.Aggregate.Registry.{RemoveOutcome, remove_oracle-RemoveOutcome}
use account_lookup_bc.Aggregate.Queries.{get_account_lookup_not_found_iff}
use account_lookup_bc.Tests.World.{adapter_with_id, services, two_oracles, registered}

abbrev initial : State ℕ
initial = record { adapters = registered; world = 0 }

abbrev request : AddOracleDto
request = record {
  id = none;
  name = "another";
  oracle_type = "builtin";
  party_type = some "IBAN";
  currency = none;
  endpoint = none;
}

remove_oracle-RemoveOutcome_example :
    RemoveOutcome services "o1" initial (ok tt) (record { adapters = []; world = 2 })
unfolding remove_oracle
remove_oracle-RemoveOutcome_example =
    remove_oracle-RemoveOutcome services "o1" initial (record { adapters = []; world = 2 }) (ok tt)
      refl

create_id : (o : Oracle) (a : OracleAdapter ℕ) → two_oracles.create o ≡ ok a → a.oracle_id ≡ o.id
create_id o a h = ground arith

abbrev before : State ℕ
before = record { adapters = []; world = 0 }

abbrev started : State ℕ
started = record { adapters = adapter_with_id "o1" ∷ adapter_with_id "o2" ∷ []; world = 4 }

abbrev asked : ParticipantLookup
asked = record {
  party_id = some "999";
  party_type = some "MSISDN";
  party_sub_type = none;
  currency = none;
}

get_account_lookup_not_found_iff_example :
    (answer : Nullable) × IsReply services registered
      (some "999")
      (some "MSISDN")
      none
      none
      0
      answer
      2
    × (is_truthy answer ≡ false)
    × (registered ≡ registered)
unfolding get_account_lookup get_participant_id_from_oracle get_oracle_adapter
get_account_lookup_not_found_iff_example =
    (get_account_lookup_not_found_iff services asked initial
        (record { adapters = registered; world = 2 })).0
      refl
