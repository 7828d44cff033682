-- ===== src/Tests/World.antt =====
-- Concrete services for the runs: two participants in good standing and one that is not approved,
-- one oracle, and its adapter, which knows one party. The state counts the calls.
use account_lookup_bc.Prelude.{
  String, none, some, true, false, List, [], ◌∷◌, ℕ, suc, ◌==◌, if◌then◌else◌, pos, whole, int,
}
use account_lookup_bc.Effect.{ok, err, Action, no_such_oracle}
use account_lookup_bc.Types.{Nullable, Oracle, Association}
use account_lookup_bc.Messages.{Payload, Message}
use account_lookup_bc.Services.{Participant, OracleFinder, OracleAdapter, Services}

-- A call that answers `r`.
abbrev answer : {A : Type 0} → A → Action ℕ A
answer r w = (ok r, suc w)

abbrev pub builtin_oracle : Oracle
builtin_oracle = record {
  id = "o1";
  name = "first";
  oracle_type = "builtin";
  party_type = some "MSISDN";
  currency = none;
  endpoint = none;
}

abbrev pub association_of : String → Association
association_of fsp_id = record {
  fsp_id = some fsp_id;
  party_type = some "MSISDN";
  party_id = some "123";
  party_sub_type = none;
  currency = none;
}

abbrev pub adapter_with_id : String → OracleAdapter ℕ
adapter_with_id id = record {
  oracle_id = id;
  oracle_type = "builtin";
  init = answer tt;
  destroy = answer tt;
  health_check = answer true;
  get_participant_fsp_id = λ _ party_id _ _. answer (elim party_id [
    | none ↦ none
    | some number ↦ if number == "123" then some "payee" else none
  ]);
  associate_participant = λ _ _ _ _ _. answer tt;
  disassociate_participant = λ _ _ _ _ _. answer tt;
  get_all_associations = answer (association_of id ∷ []);
  search_associations = λ _ _ _ _ _ _ _. answer (record {
    page_size = whole (pos 20);
    total_pages = int (pos 0);
    page_index = whole (pos 0);
    items = [];
  });
  get_search_keywords = answer [];
}

abbrev finder : OracleFinder ℕ
finder = record {
  init = answer tt;
  destroy = answer tt;
  add_oracle = λ _. answer tt;
  remove_oracle = λ _. answer tt;
  get_all_oracles = answer (builtin_oracle ∷ []);
  get_oracle_by_id = λ id. answer (if id == "o1" then some builtin_oracle else none);
  get_oracle_by_name = λ _. answer none;
  get_oracle = λ _ _. answer (some builtin_oracle);
}

abbrev participant : String → Participant
participant id = record {
  id = id;
  approved = if id == "blocked" then false else true;
  is_active = true;
}

abbrev pub services : Services ℕ
services = record {
  finder = finder;
  create = λ oracle.
      if oracle.oracle_type == "builtin"
      then ok (adapter_with_id oracle.id)
      else err no_such_oracle;
  get_participant_info =
      λ name. answer (if name == "unknown" then none else some (participant name));
  random_uuid = answer "fresh";
  domain_event = "DomainEvent";
}

abbrev pub second_oracle : Oracle
second_oracle = record builtin_oracle { id = "o2"; party_type = some "IBAN" }

-- The same, with two oracles, which are told apart by their party type.
abbrev pub two_oracles : Services ℕ
two_oracles = record services {
  finder = record finder {
    get_all_oracles = answer (builtin_oracle ∷ second_oracle ∷ []);
    get_oracle = λ party_type _. answer (elim party_type [
      | none ↦ none
      | some t ↦ some (if t == "MSISDN" then builtin_oracle else second_oracle)
    ]);
  };
}

abbrev pub registered : List (OracleAdapter ℕ)
registered = adapter_with_id "o1" ∷ []

-- A request by `requester` about the party that the adapter knows.
abbrev pub payload : String → Nullable → Payload
payload requester destination = record {
  party_id = some "123";
  party_type = some "MSISDN";
  party_sub_type = none;
  currency = some "EUR";
  requester_fsp_id = some requester;
  destination_fsp_id = destination;
  owner_fsp_id = some "payee";
  party_dob = none;
  merchant_classification_code = none;
  name = none;
  first_name = none;
  middle_name = none;
  last_name = none;
  kyc_info = none;
  supported_currencies = none;
  extensions = none;
  error_information = none;
}

abbrev pub message : String → Payload → Message
message msg_name p = record {
  msg_type = "DomainEvent";
  msg_name = msg_name;
  payload = some p;
  inbound_protocol_type = some "FSPIOP";
  inbound_protocol_opaque_state = none;
}
