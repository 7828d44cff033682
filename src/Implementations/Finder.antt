-- ===== src/Implementations/Finder.antt =====
-- The oracles' own collection: the class `MongoOracleFinderRepo` of
-- packages/implementations-lib/src/oracles/mongo_oraclefinder.ts.
pub mod Choice
pub mod Stored
use account_lookup_bc.Prelude.{
  String, Option, none, some, Bool, true, false, List, [], ◌∷◌, map, filter, not, is_some, ℕ, eqb,
  nullable_eq, ◌==◌, if◌then◌else◌,
}
use account_lookup_bc.Effect.{
  Action, pure, throw, or_throw, guard, ◌>>=◌, ◌>>◌, no_such_oracle, unable_to_get_oracle,
  oracle_already_registered, unable_to_register_oracle, unable_to_delete_oracle,
  unable_to_init_oracle_finder, unable_to_close_database_connection,
}
use account_lookup_bc.Types.{Nullable, Oracle}

-- A stored document. Its currency may be missing (`none`), null or a text.
pub record OracleDocument : Type 0 where
  pub id : String
  pub name : String
  pub oracle_type : String
  pub party_type : Nullable
  pub currency : Option Nullable
  pub endpoint : Nullable

-- The filters that `findOne` is called with.
pub data OracleFilter : Type 0 where
  same_oracle : Oracle → OracleFilter
  by_id by_name : String → OracleFilter

-- The calls of the MongoDB driver. `connect` stands for the construction of the client, its
-- `connect` and the choice of the collection; `delete_one` answers with `deletedCount`.
pub record OracleCollection (W : Type 0) : Type 0 where
  pub connect : Action W (Unit {0})
  pub close : Action W (Unit {0})
  pub find_one : OracleFilter → Action W (Option OracleDocument)
  pub find_all : Action W (List OracleDocument)
  pub find_by_party_type : Nullable → Action W (List OracleDocument)
  pub insert_one : Oracle → Action W (Unit {0})
  pub delete_one : String → Action W ℕ

abbrev or_null : Option Nullable → Nullable
or_null none = none
or_null (some v) = v

-- `mapToOracle`; a missing currency is undefined in the oracle, which is falsy as null is
abbrev pub map_to_oracle : OracleDocument → Oracle
map_to_oracle d = record {
  id = d.id;
  name = d.name;
  oracle_type = d.oracle_type;
  party_type = d.party_type;
  currency = or_null d.currency;
  endpoint = d.endpoint;
}

abbrev pub mapped : Option OracleDocument → Option Oracle
mapped none = none
mapped (some d) = some (map_to_oracle d)

-- `===` between two values that may be undefined, null or a text
abbrev pub same_currency : Option Nullable → Option Nullable → Bool
same_currency none none = true
same_currency (some v) (some u) = nullable_eq v u
same_currency _ _ = false

-- `shift() ?? other`
abbrev pub first_or {ℓ} : {A : Type ℓ} → List A → Option A → Option A
first_or [] o = o
first_or (a ∷ l) o = some a

abbrev pub given_or_no_such_oracle : {W : Type 0} → Option Oracle → Action W Oracle
given_or_no_such_oracle none = throw no_such_oracle
given_or_no_such_oracle (some o) = pure o

module _ {W : Type 0} (mongo : OracleCollection W) where
  -- `init`
  unfoldable pub init : Action W (Unit {0})
  init = or_throw mongo.connect unable_to_init_oracle_finder

  -- `destroy`
  unfoldable pub destroy : Action W (Unit {0})
  destroy = or_throw mongo.close unable_to_close_database_connection

  -- `addOracle`
  unfoldable pub add_oracle : Oracle → Action W (Unit {0})
  add_oracle oracle = do
    present ← or_throw (mongo.find_one (same_oracle oracle)) unable_to_get_oracle
    guard (not (is_some present)) oracle_already_registered
    or_throw (mongo.insert_one oracle) unable_to_register_oracle

  -- `removeOracle`
  unfoldable pub remove_oracle : String → Action W (Unit {0})
  remove_oracle id = do
    deleted ← or_throw (mongo.delete_one id) unable_to_delete_oracle
    guard (eqb deleted 1) no_such_oracle

  -- `getAllOracles`
  unfoldable pub get_all_oracles : Action W (List Oracle)
  get_all_oracles = do
    oracles ← or_throw mongo.find_all unable_to_get_oracle
    pure (map map_to_oracle oracles)

  -- `getOracleById`
  unfoldable pub get_oracle_by_id : String → Action W (Option Oracle)
  get_oracle_by_id id = do
    found ← or_throw (mongo.find_one (by_id id)) unable_to_get_oracle
    pure (mapped found)

  -- `getOracleByName`
  unfoldable pub get_oracle_by_name : String → Action W (Option Oracle)
  get_oracle_by_name name = do
    found ← or_throw (mongo.find_one (by_name name)) unable_to_get_oracle
    pure (mapped found)

  -- `getOracle`, whose currency may be undefined, null or a text
  unfoldable pub get_oracle : Nullable → Option Nullable → Action W Oracle
  get_oracle party_type currency = do
    oracles ← or_throw (mongo.find_by_party_type party_type) unable_to_get_oracle
    let with_currency = map map_to_oracle (filter (λ d. same_currency d.currency currency) oracles)
    let without_currency =
        map map_to_oracle (filter (λ d. not (same_currency d.currency currency)) oracles)
    given_or_no_such_oracle (first_or with_currency (first_or without_currency none))
