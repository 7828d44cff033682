-- ===== src/Aggregate/Validate.antt =====
-- The validations of packages/domain-lib/src/aggregate.ts: of the message, and of the requester and
-- the destination against the participant service. `none` is the source's `null`: no objection.
use account_lookup_bc.Prelude.{String, Option, none, some, not, ◌==◌, if◌then◌else◌}
use account_lookup_bc.Effect.{Result, ok, err, Action, pure, attempt, ◌>>=◌}
use account_lookup_bc.Types.{
  Nullable, ErrorCode, destination_participant_not_found, source_participant_not_found,
  invalid_destination_participant, invalid_source_participant, invalid_message_payload,
  invalid_message_type, required_source_participant_id_mismatch,
  required_source_participant_not_approved, required_source_participant_not_active,
  required_destination_participant_id_mismatch, required_destination_participant_not_approved,
  required_destination_participant_not_active,
}
use account_lookup_bc.Messages.{
  Payload, Message, RequesterErrorPayload, DestinationErrorPayload, Event,
  invalid_message_payload_error, invalid_message_type_error, invalid_requester_participant_error,
  requester_participant_not_found_error, requester_participant_id_mismatch_error,
  requester_participant_is_not_approved_error, requester_participant_is_not_active_error,
  invalid_destination_participant_error, destination_participant_not_found_error,
  destination_participant_id_mismatch_error, destination_participant_is_not_approved_error,
  destination_participant_is_not_active_error,
}
use account_lookup_bc.Services.{Participant, Services}

-- `message.payload?.f ?? null`
abbrev pub payload_field : Message → (Payload → Nullable) → Nullable
payload_field m f = elim m.payload [ none ↦ none | some p ↦ f p ]

abbrev pub message_error : Message → ErrorCode → RequesterErrorPayload
message_error m code = record {
  party_id = payload_field m (λ p. p.party_id);
  party_type = payload_field m (λ p. p.party_type);
  party_sub_type = payload_field m (λ p. p.party_sub_type);
  requester_fsp_id = payload_field m (λ p. p.requester_fsp_id);
  error_code = code;
}

-- `_validateMessageOrGetErrorEvent`
unfoldable pub validate_message : String → Message → Option Event
validate_message domain_event m = elim m.payload [
  | none ↦ some (invalid_message_payload_error (message_error m invalid_message_payload))
  | some _ ↦
      if m.msg_type == domain_event
      then none
      else some (invalid_message_type_error (message_error m invalid_message_type))
]

-- The party that a request is about, which every error payload repeats.
pub record Party : Type 0 where
  pub party_id : Nullable
  pub party_type : Nullable
  pub party_sub_type : Nullable

abbrev pub requester_error : Party → Nullable → ErrorCode → RequesterErrorPayload
requester_error party id code = record {
  party_id = party.party_id;
  party_type = party.party_type;
  party_sub_type = party.party_sub_type;
  requester_fsp_id = id;
  error_code = code;
}

abbrev pub destination_error : Party → Nullable → ErrorCode → DestinationErrorPayload
destination_error party id code = record {
  party_id = party.party_id;
  party_type = party.party_type;
  party_sub_type = party.party_sub_type;
  destination_fsp_id = id;
  error_code = code;
}

-- What follows the call of the participant service, on its outcome.
unfoldable pub requester_objection : Party → String → Result (Option Participant) → Option Event
requester_objection party id (err _) = some (
    invalid_requester_participant_error
      (requester_error party (some id) invalid_source_participant))
requester_objection party id (ok none) = some (
    requester_participant_not_found_error
      (requester_error party (some id) source_participant_not_found))
requester_objection party id (ok (some p)) =
    if not (p.id == id)
    then some (
        requester_participant_id_mismatch_error
          (requester_error party (some id) required_source_participant_id_mismatch))
    else if not p.approved
    then some (
        requester_participant_is_not_approved_error
          (requester_error party (some id) required_source_participant_not_approved))
    else if not p.is_active
    then some (
        requester_participant_is_not_active_error
          (requester_error party (some id) required_source_participant_not_active))
    else none

unfoldable pub destination_objection : Party → String → Result (Option Participant) → Option Event
destination_objection party id (err _) = some (
    invalid_destination_participant_error
      (destination_error party (some id) invalid_destination_participant))
destination_objection party id (ok none) = some (
    destination_participant_not_found_error
      (destination_error party (some id) destination_participant_not_found))
destination_objection party id (ok (some p)) =
    if not (p.id == id)
    then some (
        destination_participant_id_mismatch_error
          (destination_error party (some id) required_destination_participant_id_mismatch))
    else if not p.approved
    then some (
        destination_participant_is_not_approved_error
          (destination_error party (some id) required_destination_participant_not_approved))
    else if not p.is_active
    then some (
        destination_participant_is_not_active_error
          (destination_error party (some id) required_destination_participant_not_active))
    else none

module _ {W : Type 0} (env : Services W) where
  -- `validateRequesterParticipantInfoOrGetErrorEvent`
  unfoldable pub validate_requester : Party → Nullable → Action W (Option Event)
  validate_requester party none = pure (
      some (
        invalid_requester_participant_error
          (requester_error party none invalid_source_participant)))
  validate_requester party (some id) =
      if id == ""
      then pure (
          some (
            invalid_requester_participant_error
              (requester_error party (some id) invalid_source_participant)))
      else (do
        outcome ← attempt (env.get_participant_info id)
        pure (requester_objection party id outcome))

  -- `validateDestinationParticipantInfoOrGetErrorEvent`
  unfoldable pub validate_destination : Party → Nullable → Action W (Option Event)
  validate_destination party none = pure (
      some (
        invalid_destination_participant_error
          (destination_error party none invalid_destination_participant)))
  validate_destination party (some id) =
      if id == ""
      then pure (
          some (
            invalid_destination_participant_error
              (destination_error party (some id) invalid_destination_participant)))
      else (do
        outcome ← attempt (env.get_participant_info id)
        pure (destination_objection party id outcome))
