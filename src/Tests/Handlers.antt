-- ===== src/Tests/Handlers.antt =====
-- The handlers and validations on the concrete services.
use account_lookup_bc.Prelude.{none, some, ℕ, ◌≡◌, refl}
use account_lookup_bc.Effect.{ok}
use account_lookup_bc.Types.{Nullable}
use account_lookup_bc.Messages.{party_info_requested, party_query_response, event_msg, Payload}
use account_lookup_bc.Aggregate.Validate.{
  validate_requester, validate_destination, requester_objection, destination_objection,
  validate_message,
}
use account_lookup_bc.Aggregate.Oracles.{get_oracle_adapter, get_participant_id_from_oracle}
use account_lookup_bc.Aggregate.Handlers.{
  info_requested, participant_response, resolve_destination, query_response, association_created,
  association_removed, fsp_id_from_oracle, handle_party_query_received, handle_party_info_available,
  handle_participant_query_received, handle_association_request, handle_disassociate_request,
}
use account_lookup_bc.Aggregate.HandleEvent.{
  request_of, dispatch, handle_event, party_info_available,
}
use account_lookup_bc.Aggregate.Clearance.{IsCleared}
use account_lookup_bc.Aggregate.Events.{
  subject, IsResolved, handle_event-IsResolved, handle_event-IsCleared,
}
use account_lookup_bc.Aggregate.Outcomes.{
  IsDestination, BothCleared, party_query_iff, participant_query_iff,
}
use account_lookup_bc.Aggregate.Ownership.{
  OwnerHandled, association_created_iff, association_removed_iff,
}
use account_lookup_bc.Aggregate.Relay.{relay_iff}
use account_lookup_bc.Tests.World.{services, registered, payload, message}

-- A query without a destination: the participants are asked twice, the finder and the adapter once.
party_query_run :
    handle_party_query_received services registered (payload "payer" none) 0
    ≡ (ok (party_info_requested (info_requested (payload "payer" none) (some "payee"))), 4)
unfolding handle_party_query_received resolve_destination validate_requester requester_objection
    validate_destination destination_objection get_participant_id_from_oracle get_oracle_adapter
party_query_run = refl

party_query_iff_example :
    (destination : Nullable) × (w₁ : ℕ) × (w₂ : ℕ) × IsCleared services (some "payer") 0 w₁
    × IsDestination services registered (payload "payer" none) w₁ destination w₂
    × IsCleared services destination w₂ 4
    × (info_requested (payload "payer" none) (some "payee")
        ≡ info_requested (payload "payer" none) destination)
party_query_iff_example =
    (party_query_iff services registered (payload "payer" none) 0 4
        (info_requested (payload "payer" none) (some "payee"))).0
      party_query_run

participant_query_iff_example :
    (owner : Nullable) × (w₁ : ℕ) × (w₂ : ℕ) × IsCleared services (some "payer") 0 w₁
    × (fsp_id_from_oracle services registered (payload "payer" none) w₁ ≡ (ok owner, w₂))
    × IsCleared services owner w₂ 4
    × (participant_response (payload "payer" none) (some "payee")
        ≡ participant_response (payload "payer" none) owner)
unfolding handle_participant_query_received validate_requester requester_objection
    validate_destination destination_objection get_participant_id_from_oracle get_oracle_adapter
participant_query_iff_example =
    (participant_query_iff services registered (payload "payer" none) 0 4
        (participant_response (payload "payer" none) (some "payee"))).0
      refl

association_created_iff_example :
    OwnerHandled services registered
      (payload "payer" none)
      0
      3
      (λ a. a.associate_participant (some "payee") (some "MSISDN") (some "123") none (some "EUR"))
    × (association_created (payload "payer" none) ≡ association_created (payload "payer" none))
unfolding handle_association_request validate_requester requester_objection get_oracle_adapter
association_created_iff_example =
    (association_created_iff services registered (payload "payer" none) 0 3
        (association_created (payload "payer" none))).0
      refl

association_removed_iff_example :
    OwnerHandled services registered (payload "payer" none) 0 3 (λ a.
      a.disassociate_participant (some "payee") (some "MSISDN") (some "123") none (some "EUR"))
    × (association_removed (payload "payer" none) ≡ association_removed (payload "payer" none))
unfolding handle_disassociate_request validate_requester requester_objection get_oracle_adapter
association_removed_iff_example =
    (association_removed_iff services registered (payload "payer" none) 0 3
        (association_removed (payload "payer" none))).0
      refl

relay_iff_example :
    BothCleared services registered (payload "payer" (some "payee")) 0 2
    × (party_query_response (query_response (payload "payer" (some "payee")))
        ≡ party_query_response (query_response (payload "payer" (some "payee"))))
unfolding dispatch handle_party_info_available validate_requester requester_objection
    validate_destination destination_objection
relay_iff_example =
    (relay_iff services registered (payload "payer" (some "payee")) 0 2 party_info_available
        (party_query_response (query_response (payload "payer" (some "payee"))))
        (party_query_response (query_response (payload "payer" (some "payee")))) refl refl).0
      refl

-- A message that no handler is named for.
handle_event-IsResolved_example :
    IsResolved (handle_event services registered (message "Unheard" (payload "payer" none)) 0).0
handle_event-IsResolved_example =
    handle_event-IsResolved services registered (message "Unheard" (payload "payer" none)) 0

handle_event-IsCleared_example :
    (p : Payload) × (w₁ : ℕ) × (some (payload "payer" none) ≡ some p)
    × ((message "PartyQueryReceivedEvt" (payload "payer" none)).msg_type ≡ services.domain_event)
    × IsCleared services (subject (request_of "PartyQueryReceivedEvt") p) 0 w₁
unfolding handle_event validate_message request_of dispatch handle_party_query_received
    resolve_destination validate_requester requester_objection validate_destination
    destination_objection get_participant_id_from_oracle get_oracle_adapter
handle_event-IsCleared_example =
    handle_event-IsCleared services registered
      (message "PartyQueryReceivedEvt" (payload "payer" none)) 0 4
      (event_msg (party_info_requested (info_requested (payload "payer" none) (some "payee")))) refl
      refl
