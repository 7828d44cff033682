-- ===== src/Tests/Overlap.antt =====
-- Two associations of the HTTP oracle whose saves are in flight together.
use account_lookup_bc.Prelude.{
  String, Bool, Option, none, some, List, [], ◌≡◌, refl, ap, true, false, eq_iff,
}
use account_lookup_bc.Effect.{Result, ok}
use account_lookup_bc.Types.{Association}
use account_lookup_bc.HttpOracle.{OracleState, create_key, map_get}
use account_lookup_bc.HttpOracle.Directory.{Account, account_key}
use account_lookup_bc.HttpOracle.Overlap.{
  Disk, land, associating, outcome, entry, restarted, associations_in_flight,
}
use account_lookup_bc.Tests.JsonList.{
  write_list, read_list, read_list-write_list, write_list-nonempty,
}

abbrev parse : String → Result (Option (List Association))
parse text = ok (some (read_list text))

abbrev account : String → Account
account number = record {
  party_type = some "MSISDN";
  party_id = some number;
  party_sub_type = none;
  currency = none;
}

abbrev idle : OracleState Disk
idle = record { associations = []; files = record { file = none; pending = [] } }

abbrev busy : OracleState Disk
busy =
    associating parse write_list (some "second") (account "456")
      (associating parse write_list (some "payee") (account "123") idle)

different : ◌≡◌ {A = Bool} false true → ⊥
different e = cc

associations_in_flight_example :
    (outcome parse write_list (some "payee") (account "123") idle ≡ ok tt)
    × (outcome parse write_list
          (some "second")
          (account "456")
          (associating parse write_list (some "payee") (account "123") idle)
        ≡ ok tt)
    × (map_get (account_key (account "123")) busy.associations
        ≡ some (entry parse write_list (some "payee") (account "123")))
    × (map_get (account_key (account "456")) busy.associations
        ≡ some (entry parse write_list (some "second") (account "456")))
    × ((restarted parse write_list (land 0 (land 0 busy.files))).0 ≡ ok tt)
    × ((restarted parse write_list (land 0 (land 0 busy.files))).1.associations ≡ busy.associations)
    × ((restarted parse write_list (land 0 (land 1 busy.files))).0 ≡ ok tt)
    × (map_get
          (account_key (account "123"))
          (restarted parse write_list (land 0 (land 1 busy.files))).1.associations
        ≡ some (entry parse write_list (some "payee") (account "123")))
    × (map_get
          (account_key (account "456"))
          (restarted parse write_list (land 0 (land 1 busy.files))).1.associations
        ≡ none)
unfolding create_key
associations_in_flight_example =
    associations_in_flight parse write_list (λ l. ap (λ x. ok (some x)) (read_list-write_list l))
      write_list-nonempty (some "payee") (some "second") (account "123") (account "456") idle busy
      tt refl refl refl
      (λ e. different ((eq_iff (account_key (account "123")) (account_key (account "456"))).1 e))
      refl
