-- ===== src/Aggregate/Handlers.antt =====
-- The event handlers of packages/domain-lib/src/aggregate.ts, one for each request. They read the
-- list of adapters and never write it. A payload is there, since `handleEvent` has tested that.
-- Timers, metrics and logging have no effect on the result, and are left out.
use account_lookup_bc.Prelude.{Option, none, some, List, is_truthy, if◌then◌else◌}
use account_lookup_bc.Effect.{Result, ok, err, Action, pure, attempt, ◌>>=◌}
use account_lookup_bc.Types.{
  Nullable, unable_to_associate_participant, unable_to_disassociate_participant,
  unable_to_get_oracle_adapter, unable_to_get_participant_from_oracle,
}
use account_lookup_bc.Messages.{
  Payload, ParticipantFromOracleErrorPayload, OracleAdapterErrorPayload, AssociationErrorPayload,
  PartyInfoRequestedPayload, PartyQueryResponsePayload, ParticipantQueryResponsePayload,
  RejectedResponsePayload, AssociationCreatedPayload, AssociationRemovedPayload, Event,
  unable_to_get_participant_from_oracle_error, unable_to_get_oracle_adapter_error,
  unable_to_associate_participant_error, unable_to_disassociate_participant_error,
  party_info_requested, party_query_response, participant_query_response, party_rejected_response,
  participant_rejected_response, participant_association_created, participant_association_removed,
}
use account_lookup_bc.Services.{OracleAdapter, Services}
use account_lookup_bc.Aggregate.Validate.{Party, validate_requester, validate_destination}
use account_lookup_bc.Aggregate.Oracles.{get_oracle_adapter, get_participant_id_from_oracle}

abbrev pub party_of : Payload → Party
party_of p = record {
  party_id = p.party_id;
  party_type = p.party_type;
  party_sub_type = p.party_sub_type;
}

abbrev participant_from_oracle_error : Payload → ParticipantFromOracleErrorPayload
participant_from_oracle_error p = record {
  party_id = p.party_id;
  party_sub_type = p.party_sub_type;
  party_type = p.party_type;
  currency = p.currency;
  error_code = unable_to_get_participant_from_oracle;
}

abbrev oracle_adapter_error : Payload → OracleAdapterErrorPayload
oracle_adapter_error p = record {
  party_id = p.party_id;
  party_type = p.party_type;
  currency = p.currency;
  error_code = unable_to_get_oracle_adapter;
}

abbrev associate_error : Payload → AssociationErrorPayload
associate_error p = record {
  fsp_id = p.owner_fsp_id;
  party_type = p.party_type;
  party_id = p.party_id;
  currency = p.currency;
  error_code = unable_to_associate_participant;
}

abbrev disassociate_error : Payload → AssociationErrorPayload
disassociate_error p = record {
  fsp_id = p.owner_fsp_id;
  party_type = p.party_type;
  party_id = p.party_id;
  currency = p.currency;
  error_code = unable_to_disassociate_participant;
}

abbrev pub info_requested : Payload → Nullable → PartyInfoRequestedPayload
info_requested p destination = record {
  requester_fsp_id = p.requester_fsp_id;
  destination_fsp_id = destination;
  party_type = p.party_type;
  party_id = p.party_id;
  party_sub_type = p.party_sub_type;
  currency = p.currency;
}

abbrev pub query_response : Payload → PartyQueryResponsePayload
query_response p = record {
  requester_fsp_id = p.requester_fsp_id;
  destination_fsp_id = p.destination_fsp_id;
  party_dob = p.party_dob;
  merchant_classification_code = p.merchant_classification_code;
  name = p.name;
  first_name = p.first_name;
  middle_name = p.middle_name;
  last_name = p.last_name;
  owner_fsp_id = p.owner_fsp_id;
  party_type = p.party_type;
  party_id = p.party_id;
  party_sub_type = p.party_sub_type;
  currency = p.currency;
  kyc_info = p.kyc_info;
  supported_currencies = p.supported_currencies;
  extensions = p.extensions;
}

abbrev pub participant_response : Payload → Nullable → ParticipantQueryResponsePayload
participant_response p owner = record {
  requester_fsp_id = p.requester_fsp_id;
  owner_fsp_id = owner;
  party_type = p.party_type;
  party_id = p.party_id;
  party_sub_type = p.party_sub_type;
  currency = p.currency;
}

abbrev pub rejected_response : Payload → RejectedResponsePayload
rejected_response p = record {
  party_id = p.party_id;
  party_type = p.party_type;
  party_sub_type = p.party_sub_type;
  currency = p.currency;
  error_information = p.error_information;
}

abbrev pub association_created : Payload → AssociationCreatedPayload
association_created p = record {
  party_id = p.party_id;
  owner_fsp_id = p.owner_fsp_id;
  party_type = p.party_type;
  party_sub_type = p.party_sub_type;
  extensions = p.extensions;
}

abbrev pub association_removed : Payload → AssociationRemovedPayload
association_removed p = record {
  party_id = p.party_id;
  owner_fsp_id = p.owner_fsp_id;
  party_type = p.party_type;
  party_sub_type = p.party_sub_type;
}

-- `if (error) return error;` and the rest of the handler
abbrev pub unless : {W : Type 0} → Option Event → Action W Event → Action W Event
unless none rest = rest
unless (some objection) rest = pure objection

-- `try { x = await … } catch { return failure; }` and the rest of the handler
abbrev pub or_return : {W A : Type 0} → Result A → Event → (A → Action W Event) → Action W Event
or_return (ok a) failure rest = rest a
or_return (err _) failure rest = pure failure

module _ {W : Type 0} (env : Services W) (adapters : List (OracleAdapter W)) where
  -- What four of the handlers begin or end with: both validations, then the event.
  abbrev pub both_validated : Payload → Event → Action W Event
  both_validated p event = do
    objection ← validate_requester env (party_of p) p.requester_fsp_id
    unless objection (do
      objection' ← validate_destination env (party_of p) p.destination_fsp_id
      unless objection' (pure event))

  -- The FSP id that the oracle has for the party of the payload.
  abbrev pub fsp_id_from_oracle : Payload → Action W Nullable
  fsp_id_from_oracle p = do
    id ←
        get_participant_id_from_oracle env adapters p.party_id p.party_type p.party_sub_type
          p.currency
    pure (some id)

  -- `destinationFspId` of the payload, or else of the oracle
  unfoldable pub resolve_destination : Payload → Action W (Result Nullable)
  resolve_destination p =
      if is_truthy p.destination_fsp_id
      then pure (ok p.destination_fsp_id)
      else attempt (fsp_id_from_oracle p)

  -- `_handlePartyQueryReceivedEvt`
  unfoldable pub handle_party_query_received : Payload → Action W Event
  handle_party_query_received p = do
    objection ← validate_requester env (party_of p) p.requester_fsp_id
    unless objection (do
      resolved ← resolve_destination p
      or_return resolved
          (unable_to_get_participant_from_oracle_error (participant_from_oracle_error p))
          λ destination. (do
            objection' ← validate_destination env (party_of p) destination
            unless objection' (pure (party_info_requested (info_requested p destination)))))

  -- `_handlePartyInfoAvailableEvt`
  unfoldable pub handle_party_info_available : Payload → Action W Event
  handle_party_info_available p = both_validated p (party_query_response (query_response p))

  -- `_handleParticipantQueryReceivedEvt`
  unfoldable pub handle_participant_query_received : Payload → Action W Event
  handle_participant_query_received p = do
    objection ← validate_requester env (party_of p) p.requester_fsp_id
    unless objection (do
      found ← attempt (fsp_id_from_oracle p)
      or_return found
          (unable_to_get_participant_from_oracle_error (participant_from_oracle_error p))
          λ owner. (do
            objection' ← validate_destination env (party_of p) owner
            unless objection' (pure (participant_query_response (participant_response p owner)))))

  -- `_getPartyRejected`
  unfoldable pub get_party_rejected : Payload → Action W Event
  get_party_rejected p = both_validated p (party_rejected_response (rejected_response p))

  -- `_getParticipantRejected`
  unfoldable pub get_participant_rejected : Payload → Action W Event
  get_participant_rejected p =
      both_validated p (participant_rejected_response (rejected_response p))

  -- `_handleParticipantAssociationRequestReceivedEvt`
  unfoldable pub handle_association_request : Payload → Action W Event
  handle_association_request p = do
    objection ← validate_requester env (party_of p) p.owner_fsp_id
    unless objection (do
      found ← attempt (get_oracle_adapter env adapters p.party_type p.currency)
      or_return found (unable_to_get_oracle_adapter_error (oracle_adapter_error p)) λ adapter. (do
        done ← attempt (
            adapter.associate_participant p.owner_fsp_id p.party_type p.party_id p.party_sub_type
              p.currency)
        or_return done (unable_to_associate_participant_error (associate_error p))
            λ _. pure (participant_association_created (association_created p))))

  -- `_handleParticipantDisassociateRequestReceivedEvt`
  unfoldable pub handle_disassociate_request : Payload → Action W Event
  handle_disassociate_request p = do
    objection ← validate_requester env (party_of p) p.owner_fsp_id
    unless objection (do
      found ← attempt (get_oracle_adapter env adapters p.party_type p.currency)
      or_return found (unable_to_get_oracle_adapter_error (oracle_adapter_error p)) λ adapter. (do
        done ← attempt (
            adapter.disassociate_participant p.owner_fsp_id p.party_type p.party_id p.party_sub_type
              p.currency)
        or_return done (unable_to_disassociate_participant_error (disassociate_error p))
            λ _. pure (participant_association_removed (association_removed p))))
