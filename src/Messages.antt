-- ===== src/Messages.antt =====
-- The messages that the aggregate of packages/domain-lib/src/aggregate.ts receives, and the events
-- that it answers with. The message classes belong to the platform's public message library; each
-- payload below has the fields that the aggregate's object literals write.
use account_lookup_bc.Prelude.{String, Option, none}
use account_lookup_bc.Types.{Nullable, ErrorCode}

-- The union of the fields that the handlers read. What they only copy (`kycInfo`, `extensions`,
-- `supportedCurrencies`, `errorInformation`) is kept as a text.
pub record Payload : Type 0 where
  pub party_id : Nullable
  pub party_type : Nullable
  pub party_sub_type : Nullable
  pub currency : Nullable
  pub requester_fsp_id : Nullable
  pub destination_fsp_id : Nullable
  pub owner_fsp_id : Nullable
  pub party_dob : Nullable
  pub merchant_classification_code : Nullable
  pub name : Nullable
  pub first_name : Nullable
  pub middle_name : Nullable
  pub last_name : Nullable
  pub kyc_info : Nullable
  pub supported_currencies : Nullable
  pub extensions : Nullable
  pub error_information : Nullable

pub record Message : Type 0 where
  pub msg_type : String
  pub msg_name : String
  pub payload : Option Payload
  pub inbound_protocol_type : Nullable
  pub inbound_protocol_opaque_state : Nullable

pub record RequesterErrorPayload : Type 0 where
  pub party_id : Nullable
  pub party_type : Nullable
  pub party_sub_type : Nullable
  pub requester_fsp_id : Nullable
  pub error_code : ErrorCode

pub record DestinationErrorPayload : Type 0 where
  pub party_id : Nullable
  pub party_type : Nullable
  pub party_sub_type : Nullable
  pub destination_fsp_id : Nullable
  pub error_code : ErrorCode

pub record UnknownErrorPayload : Type 0 where
  pub party_id : Nullable
  pub party_type : Nullable
  pub currency : Nullable
  pub requester_fsp_id : Nullable
  pub error_code : ErrorCode

pub record ParticipantFromOracleErrorPayload : Type 0 where
  pub party_id : Nullable
  pub party_sub_type : Nullable
  pub party_type : Nullable
  pub currency : Nullable
  pub error_code : ErrorCode

pub record OracleAdapterErrorPayload : Type 0 where
  pub party_id : Nullable
  pub party_type : Nullable
  pub currency : Nullable
  pub error_code : ErrorCode

-- `fspIdToAssociate` or `fspIdToDisassociate`
pub record AssociationErrorPayload : Type 0 where
  pub fsp_id : Nullable
  pub party_type : Nullable
  pub party_id : Nullable
  pub currency : Nullable
  pub error_code : ErrorCode

pub record PartyInfoRequestedPayload : Type 0 where
  pub requester_fsp_id : Nullable
  pub destination_fsp_id : Nullable
  pub party_type : Nullable
  pub party_id : Nullable
  pub party_sub_type : Nullable
  pub currency : Nullable

pub record PartyQueryResponsePayload : Type 0 where
  pub requester_fsp_id : Nullable
  pub destination_fsp_id : Nullable
  pub party_dob : Nullable
  pub merchant_classification_code : Nullable
  pub name : Nullable
  pub first_name : Nullable
  pub middle_name : Nullable
  pub last_name : Nullable
  pub owner_fsp_id : Nullable
  pub party_type : Nullable
  pub party_id : Nullable
  pub party_sub_type : Nullable
  pub currency : Nullable
  pub kyc_info : Nullable
  pub supported_currencies : Nullable
  pub extensions : Nullable

pub record ParticipantQueryResponsePayload : Type 0 where
  pub requester_fsp_id : Nullable
  pub owner_fsp_id : Nullable
  pub party_type : Nullable
  pub party_id : Nullable
  pub party_sub_type : Nullable
  pub currency : Nullable

-- `PartyRejectedResponseEvtPayload` and `ParticipantRejectedResponseEvtPayload`
pub record RejectedResponsePayload : Type 0 where
  pub party_id : Nullable
  pub party_type : Nullable
  pub party_sub_type : Nullable
  pub currency : Nullable
  pub error_information : Nullable

pub record AssociationCreatedPayload : Type 0 where
  pub party_id : Nullable
  pub owner_fsp_id : Nullable
  pub party_type : Nullable
  pub party_sub_type : Nullable
  pub extensions : Nullable

pub record AssociationRemovedPayload : Type 0 where
  pub party_id : Nullable
  pub owner_fsp_id : Nullable
  pub party_type : Nullable
  pub party_sub_type : Nullable

-- One constructor for each event class.
pub data Event : Type 0 where
  invalid_message_payload_error invalid_message_type_error : RequesterErrorPayload → Event
  unknown_error : UnknownErrorPayload → Event
  invalid_requester_participant_error : RequesterErrorPayload → Event
  requester_participant_not_found_error : RequesterErrorPayload → Event
  requester_participant_id_mismatch_error : RequesterErrorPayload → Event
  requester_participant_is_not_approved_error : RequesterErrorPayload → Event
  requester_participant_is_not_active_error : RequesterErrorPayload → Event
  invalid_destination_participant_error : DestinationErrorPayload → Event
  destination_participant_not_found_error : DestinationErrorPayload → Event
  destination_participant_id_mismatch_error : DestinationErrorPayload → Event
  destination_participant_is_not_approved_error : DestinationErrorPayload → Event
  destination_participant_is_not_active_error : DestinationErrorPayload → Event
  unable_to_get_participant_from_oracle_error : ParticipantFromOracleErrorPayload → Event
  unable_to_get_oracle_adapter_error : OracleAdapterErrorPayload → Event
  unable_to_associate_participant_error : AssociationErrorPayload → Event
  unable_to_disassociate_participant_error : AssociationErrorPayload → Event
  party_info_requested : PartyInfoRequestedPayload → Event
  party_query_response : PartyQueryResponsePayload → Event
  participant_query_response : ParticipantQueryResponsePayload → Event
  party_rejected_response participant_rejected_response : RejectedResponsePayload → Event
  participant_association_created : AssociationCreatedPayload → Event
  participant_association_removed : AssociationRemovedPayload → Event

-- An event with the fields that the base class adds.
pub record DomainEventMsg : Type 0 where
  pub event : Event
  pub inbound_protocol_type : Nullable
  pub inbound_protocol_opaque_state : Nullable

abbrev pub event_msg : Event → DomainEventMsg
event_msg e = record {
  event = e;
  inbound_protocol_type = none;
  inbound_protocol_opaque_state = none;
}
