-- ===== src/Tests/System.antt =====
-- The aggregate on built-in adapters over the store in memory, and on a remote oracle.
use account_lookup_bc.Prelude.{
  ℕ, String, none, some, Bool, true, List, [], ◌∷◌, ◌==◌, ◌≡◌, refl, sym, ap, ◌∙◌, arith, inl,
  Bool-cases, inr,
}
use account_lookup_bc.Effect.{Result, ok, Action}
use account_lookup_bc.Types.{Nullable, Oracle}
use account_lookup_bc.Messages.{
  Payload, event_msg, participant_association_created, participant_query_response,
}
use account_lookup_bc.Services.{OracleFinder, OracleAdapter, Services}
use account_lookup_bc.Implementations.Builtin.{
  get_key_with_prefix, get_from_cache, set_to_cache, get_participant_fsp_id, associate_participant,
}
use account_lookup_bc.Implementations.Builtin.Quiet.{IsQuiet, IsQuiet-refl}
use account_lookup_bc.Implementations.Builtin.Provider.{builtin_provider}
use account_lookup_bc.Implementations.Remote.{http_oracle_provider}
use account_lookup_bc.Aggregate.Oracles.{
  find_adapter, get_oracle_adapter, get_participant_id_from_oracle,
}
use account_lookup_bc.Aggregate.Validate.{
  validate_requester, validate_destination, requester_objection, destination_objection,
  validate_message,
}
use account_lookup_bc.Aggregate.Handlers.{
  association_created, participant_response, handle_participant_query_received,
  handle_association_request,
}
use account_lookup_bc.Aggregate.HandleEvent.{request_of, dispatch, handle_event}
use account_lookup_bc.Aggregate.Admin.{State}
use account_lookup_bc.Aggregate.Answer.{IsAdapterFor}
use account_lookup_bc.Service.Routes.{
  SearchQuery, search_associations, list_search_keywords, failed, has_privilege, handle,
}
use account_lookup_bc.System.Builtin.{IsBuiltinSystem}
use account_lookup_bc.System.Registration.{query-association}
use account_lookup_bc.System.Searches.{handle_search_remote}
use account_lookup_bc.Tests.World.{
  builtin_oracle, second_oracle, two_oracles, adapter_with_id, payload, message,
}
use account_lookup_bc.Tests.Servers.{Servers, memory, memory_laws}
use account_lookup_bc.Tests.Search.{memory_search}
use account_lookup_bc.Tests.Factory.{silent, remote_oracle}

abbrev pub still : {A : Type 0} → A → Action Servers A
still a w = (ok a, w)

abbrev pub finder : OracleFinder Servers
finder = record {
  init = still tt;
  destroy = still tt;
  add_oracle = λ _. still tt;
  remove_oracle = λ _. still tt;
  get_all_oracles = still (builtin_oracle ∷ []);
  get_oracle_by_id = λ _. still none;
  get_oracle_by_name = λ _. still none;
  get_oracle = λ _ _. still (some builtin_oracle);
}

abbrev pub builtin_services : Services Servers
builtin_services = record {
  finder = finder;
  create = λ o. ok (builtin_provider memory memory_search 30 o);
  get_participant_info = λ id. still (some (record { id = id; approved = true; is_active = true }));
  random_uuid = still "fresh";
  domain_event = "DomainEvent";
}

abbrev pub builtin_adapters : List (OracleAdapter Servers)
builtin_adapters = builtin_provider memory memory_search 30 builtin_oracle ∷ []

still-IsQuiet :
    {A : Type 0} (a : A) (r : Result A) (w w' : Servers)
    → still a w ≡ (r, w')
    → IsQuiet memory memory_laws w w'
still-IsQuiet a r w w' h = record {
  same_docs = ap (λ o. o.1.stored) (sym h);
  expired = λ k. inl (ap (λ o. o.1.entries k) (sym h));
}

only_builtin :
    (id : String) (a : OracleAdapter Servers)
    → find_adapter id builtin_adapters ≡ some a
    → (o : Oracle) × (a ≡ builtin_provider memory memory_search 30 o)
only_builtin id a h =
    elim (Bool-cases ((builtin_provider memory memory_search 30 builtin_oracle).oracle_id == id)) [
      | inl same ↦ (builtin_oracle, ground (arith, h, same))
      | inr differ ↦ ground (arith, h, differ)
    ]

pub builtin_system :
    IsBuiltinSystem builtin_services builtin_adapters memory memory_search 30 memory_laws
builtin_system = record {
  all_builtin = only_builtin;
  participants_quiet = λ id r w w' h. still-IsQuiet _ r w w' h;
  finder_quiet = λ t c r w w' h. still-IsQuiet _ r w w' h;
}

abbrev pub empty : Servers
empty = record { stored = []; entries = λ k. none }

abbrev pub request : Payload
request = payload "payer" none

abbrev pub associated : Servers
associated =
    (associate_participant memory 30 (some "payee") (some "MSISDN") (some "123") none (some "EUR")
      empty).1

query-association_example : ◌≡◌ {A = Nullable} (some "payee") (some "payee")
unfolding handle_event validate_message request_of dispatch handle_participant_query_received
    handle_association_request validate_requester requester_objection validate_destination
    destination_objection get_participant_id_from_oracle get_oracle_adapter builtin_provider
    associate_participant get_participant_fsp_id get_from_cache set_to_cache get_key_with_prefix
query-association_example =
    query-association builtin_services builtin_adapters memory memory_search 30 memory_laws
      builtin_system (message "ParticipantAssociationRequestReceivedEvt" request)
      (message "ParticipantQueryReceivedEvt" request) request request
      (event_msg (participant_association_created (association_created request)))
      (event_msg (participant_query_response (participant_response request (some "payee"))))
      (association_created request) (participant_response request (some "payee")) empty associated
      associated associated refl refl refl refl
      (record { same_type = refl; same_id = refl; same_sub_type = refl; same_currency = refl }) refl
      refl refl (IsQuiet-refl memory memory_laws associated) refl refl

abbrev second_remote : Oracle
second_remote = record remote_oracle { id = "o2"; party_type = some "IBAN" }

abbrev pub admins_only : String → String → Bool
admins_only role privilege = role == "admin"

-- Two oracles are listed; the finder chooses the second for its party type, and its adapter is
-- remote.
abbrev mixed : State ℕ
mixed = record {
  adapters = adapter_with_id "o1" ∷ http_oracle_provider silent second_remote ∷ [];
  world = 0;
}

chosen_is_remote :
    (a : OracleAdapter ℕ) (v v' : ℕ)
    → IsAdapterFor two_oracles mixed.adapters (some "IBAN") none v a v'
    → (r : Oracle) × (a ≡ http_oracle_provider silent r)
unfolding http_oracle_provider
chosen_is_remote a v v' h =
    let is : second_oracle ≡ h.oracle = ground (arith, h.chosen) in
    let found : some (http_oracle_provider silent second_remote) ≡ some a =
      ap (λ (o : Oracle). find_adapter o.id mixed.adapters) is ∙ h.registered in
    (second_remote, ground (arith, found))

abbrev no_filter : SearchQuery
no_filter = record {
  fsp_id = none;
  party_id = none;
  party_type = none;
  party_sub_type = none;
  currency = none;
  page_index = some "0";
  pageindex = none;
  page_size = none;
  pagesize = some "x";
}

handle_search_remote_example :
    ((handle two_oracles admins_only ("admin" ∷ []) true (search_associations no_filter) mixed).0
      ≡ failed 500)
    × ((valid : Bool)
        → (handle two_oracles admins_only ("admin" ∷ []) valid list_search_keywords mixed).0
          ≡ failed 500)
unfolding has_privilege
handle_search_remote_example =
    handle_search_remote two_oracles silent mixed 1 (builtin_oracle ∷ []) [] second_oracle refl
      chosen_is_remote admins_only ("admin" ∷ []) refl no_filter
