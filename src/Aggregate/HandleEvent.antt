-- ===== src/Aggregate/HandleEvent.antt =====
-- `handleEvent` of packages/domain-lib/src/aggregate.ts: validation, dispatch on the message's
-- name, and the catch-all.
use account_lookup_bc.Prelude.{String, none, some, List, ◌==◌, if◌then◌else◌}
use account_lookup_bc.Effect.{Result, ok, err, Action, pure, attempt, ◌>>=◌}
use account_lookup_bc.Types.{command_type_unknown, invalid_message_payload}
use account_lookup_bc.Messages.{
  Payload, Message, UnknownErrorPayload, Event, unknown_error, invalid_message_type_error,
  DomainEventMsg, event_msg,
}
use account_lookup_bc.Services.{OracleAdapter, Services}
use account_lookup_bc.Aggregate.Validate.{payload_field, validate_message, requester_error}
use account_lookup_bc.Aggregate.Handlers.{
  party_of, handle_party_query_received, handle_party_info_available,
  handle_participant_query_received, get_party_rejected, get_participant_rejected,
  handle_association_request, handle_disassociate_request,
}

-- The cases of the `switch`.
pub data Request : Type 0 where
  party_query_received party_info_available participant_query_received : Request
  association_request_received disassociate_request_received : Request
  party_rejected participant_rejected unknown_request : Request

unfoldable pub request_of : String → Request
request_of name =
    if name == "PartyQueryReceivedEvt"
    then party_query_received
    else if name == "PartyInfoAvailableEvt"
    then party_info_available
    else if name == "ParticipantQueryReceivedEvt"
    then participant_query_received
    else if name == "ParticipantAssociationRequestReceivedEvt"
    then association_request_received
    else if name == "ParticipantDisassociateRequestReceivedEvt"
    then disassociate_request_received
    else if name == "PartyRejectedEvt"
    then party_rejected
    else if name == "ParticipantRejectedEvt"
    then participant_rejected
    else unknown_request

abbrev pub unknown_error_payload : Message → UnknownErrorPayload
unknown_error_payload m = record {
  party_id = payload_field m (λ p. p.party_id);
  party_type = payload_field m (λ p. p.party_type);
  currency = payload_field m (λ p. p.currency);
  requester_fsp_id = payload_field m (λ p. p.requester_fsp_id);
  error_code = command_type_unknown;
}

-- `catch (error)` of `handleEvent`
abbrev pub or_unknown_error : Message → Result Event → Event
or_unknown_error m (ok event) = event
or_unknown_error m (err _) = unknown_error (unknown_error_payload m)

module _ {W : Type 0} (env : Services W) (adapters : List (OracleAdapter W)) where
  -- The `switch`; the message has passed the validation, so its payload is there.
  unfoldable pub dispatch : Request → Payload → Action W Event
  dispatch party_query_received p = handle_party_query_received env adapters p
  dispatch party_info_available p = handle_party_info_available env adapters p
  dispatch participant_query_received p = handle_participant_query_received env adapters p
  dispatch association_request_received p = handle_association_request env adapters p
  dispatch disassociate_request_received p = handle_disassociate_request env adapters p
  dispatch party_rejected p = get_party_rejected env adapters p
  dispatch participant_rejected p = get_participant_rejected env adapters p
  dispatch unknown_request p = pure (
      invalid_message_type_error
        (requester_error (party_of p) p.requester_fsp_id invalid_message_payload))

  -- An event that the validation answers with carries the protocol fields of the message.
  abbrev pub pass_protocol : Message → Event → DomainEventMsg
  pass_protocol m event = record {
    event = event;
    inbound_protocol_type = m.inbound_protocol_type;
    inbound_protocol_opaque_state = m.inbound_protocol_opaque_state;
  }

  -- `handleEvent`
  unfoldable pub handle_event : Message → Action W DomainEventMsg
  unfolding validate_message
  handle_event m = elim (validate_message env.domain_event m) [
    | some objection ↦ pure (pass_protocol m objection)
    | none ↦ elim m.payload [
      -- not reached: a message without a payload has been answered above
      | none ↦ pure (event_msg (unknown_error (unknown_error_payload m)))
      | some p ↦ do
        outcome ← attempt (dispatch (request_of m.msg_name) p)
        pure (event_msg (or_unknown_error m outcome))
    ]
  ]
