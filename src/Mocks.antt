-- ===== src/Mocks.antt =====
-- The stand-ins of packages/shared-mocks-lib/src: the finder, the adapter, the factory and the
-- participant service that keep their data in memory. The data are those of mocked_data.ts.
pub mod Removal
use account_lookup_bc.Prelude.{
  String, Option, none, some, Bool, true, false, List, [], ◌∷◌, ◌++◌, ℕ, zero, suc, find, ◌&&◌,
  ◌||◌, ◌==◌, nullable_eq, is_truthy, if◌then◌else◌,
}
use account_lookup_bc.Effect.{Result, ok, err, Action, pure, throw, other}
use account_lookup_bc.Types.{Nullable, Oracle, Association}
use account_lookup_bc.Services.{Participant, OracleFinder, OracleAdapter}

abbrev mocked_oracle : String → String → Nullable → String → String → String → Oracle
mocked_oracle id name endpoint party_type oracle_type currency = record {
  id = id;
  name = name;
  oracle_type = oracle_type;
  party_type = some party_type;
  currency = some currency;
  endpoint = endpoint;
}

-- `mockedOracleAdapters`
abbrev pub mocked_oracle_adapters : List Oracle
mocked_oracle_adapters =
    mocked_oracle "1" "oracle1" none "bank" "builtin" "USD"
    ∷ mocked_oracle "2" "oracle2" none "bank" "builtin" "USD"
    ∷ mocked_oracle "3" "oracle without fspId" (some "http://bank-oracle.com") "lender"
        "remote-http" "EUR"
    ∷ mocked_oracle "4" "oracle with error" (some "http://bank-oracle.com") "issuer" "remote-http"
        "USD"
    ∷ []

-- `OracleAssociations`
pub record MockedAssociation : Type 0 where
  pub association : Association
  pub has_error : Bool

abbrev mocked_association : String → Nullable → String → String → String → Bool → MockedAssociation
mocked_association party_type fsp_id party_id party_sub_type currency has_error = record {
  association = record {
    fsp_id = fsp_id;
    party_type = some party_type;
    party_id = some party_id;
    party_sub_type = some party_sub_type;
    currency = some currency;
  };
  has_error = has_error;
}

-- `mockedOracleAssociations`
abbrev pub first_association : MockedAssociation
first_association = mocked_association "bank" (some "fspId") "party" "savings" "USD" false

abbrev pub mocked_oracle_associations : List MockedAssociation
mocked_oracle_associations =
    first_association
    ∷ mocked_association "insurance" none "party2" "order" "EUR" false
    ∷ mocked_association "lender" (some "fspId3") "party3" "loan" "EUR" true
    ∷ mocked_association "issuer" none "party4" "credit" "USD" false
    ∷ []

-- `findIndex`, with `none` for -1
abbrev pub find_index {ℓ} : {A : Type ℓ} → (A → Bool) → List A → Option ℕ
find_index p [] = none
find_index p (x ∷ l) =
    let rest = find_index p l in
    if p x then some zero else elim rest [ none ↦ none | some n ↦ some (suc n) ]

-- `splice(n, 1)`, and `splice(-1, 1)`, which takes the last item out
abbrev pub remove_at {ℓ} : {A : Type ℓ} → ℕ → List A → List A
remove_at n [] = []
remove_at zero (x ∷ l) = l
remove_at (suc n) (x ∷ l) = x ∷ remove_at n l

abbrev pub remove_last {ℓ} : {A : Type ℓ} → List A → List A
remove_last [] = []
remove_last (x ∷ []) = []
remove_last (x ∷ (y ∷ l)) = x ∷ remove_last (y ∷ l)

abbrev pub splice_one {ℓ} : {A : Type ℓ} → Option ℕ → List A → List A
splice_one none l = remove_last l
splice_one (some n) l = remove_at n l

abbrev pub reading : {A : Type 0} → (List Oracle → A) → Action (List Oracle) A
reading f l = (ok (f l), l)

abbrev pub serves : Nullable → Nullable → Oracle → Bool
serves party_type currency o =
    nullable_eq o.party_type party_type
    && (if is_truthy o.currency then nullable_eq o.currency currency else true)

-- `MemoryOracleFinder`, on `_oracles`
unfoldable pub memory_oracle_finder : OracleFinder (List Oracle)
memory_oracle_finder = record {
  init = pure tt;
  destroy = pure tt;
  add_oracle = λ oracle l. (ok tt, l ++ oracle ∷ []);
  remove_oracle = λ id l. (ok tt, splice_one (find_index (λ o. o.id == id) l) l);
  get_all_oracles = reading (λ l. l);
  get_oracle_by_id = λ id. reading (find (λ o. o.id == id));
  get_oracle_by_name = λ name. reading (find (λ o. o.name == name));
  get_oracle = λ party_type currency. reading (find (serves party_type currency));
}

abbrev asked_for : Nullable → Nullable → Bool
asked_for value field = if is_truthy value then nullable_eq field value else true

-- The test of `getParticipantFspId`
abbrev pub is_for : Nullable → Nullable → Nullable → Nullable → MockedAssociation → Bool
is_for party_type party_id party_sub_type currency m =
    nullable_eq m.association.party_type party_type
    && (nullable_eq m.association.party_id party_id
        && (asked_for party_sub_type m.association.party_sub_type
            && asked_for currency m.association.currency))

abbrev found_fsp_id : {W : Type 0} → Option MockedAssociation → Action W Nullable
found_fsp_id none = pure none
found_fsp_id (some m) = if m.has_error then throw (other "Error") else pure m.association.fsp_id

-- `associateParticipant` and `disassociateParticipant`, which change nothing
abbrev possible : {W : Type 0} → String → Option MockedAssociation → Action W (Unit {0})
possible refusal none = throw (other refusal)
possible refusal (some m) = if m.has_error then throw (other "Error") else pure tt

abbrev of_type : Nullable → MockedAssociation → Bool
of_type party_type m = nullable_eq m.association.party_type party_type

-- `MemoryOracleProviderAdapter`
unfoldable pub memory_oracle_provider_adapter : {W : Type 0} → Oracle → OracleAdapter W
memory_oracle_provider_adapter oracle = record {
  oracle_id = oracle.id;
  oracle_type = oracle.oracle_type;
  init = pure tt;
  destroy = pure tt;
  health_check = pure true;
  get_participant_fsp_id = λ party_type party_id party_sub_type currency.
      found_fsp_id
        (find (is_for party_type party_id party_sub_type currency) mocked_oracle_associations);
  associate_participant = λ _ party_type _ _ _.
      possible "Association not possible" (find (of_type party_type) mocked_oracle_associations);
  disassociate_participant = λ _ party_type _ _ _.
      possible "Disassociation not possible" (find (of_type party_type) mocked_oracle_associations);
  get_all_associations = pure (first_association.association ∷ []);
  search_associations = λ _ _ _ _ _ _ _. throw (other "Method not implemented.");
  get_search_keywords = throw (other "Method not implemented.");
}

-- `MemoryOracleProviderFactory.create`
unfoldable pub memory_create : {W : Type 0} → Oracle → Result (OracleAdapter W)
memory_create oracle =
    if (oracle.oracle_type == "builtin" || oracle.oracle_type == "remote-http")
    then ok (memory_oracle_provider_adapter oracle)
    else err (other "Oracle type not supported")

-- `MemoryParticipantService.getParticipantInfo`
unfoldable pub memory_participant_info : {W : Type 0} → String → Action W (Option Participant)
memory_participant_info fsp_id = pure none

-- `MemoryParticipantService.getParticipantsInfo`
unfoldable pub memory_participants_info :
    {W : Type 0} → List String → Action W (Option (List Participant))
memory_participants_info fsp_ids = pure (some [])
