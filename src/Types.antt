-- ===== src/Types.antt =====
-- The data that the parts exchange: packages/public-types-lib/src/account-lookup.ts and enums.ts,
-- packages/domain-lib/src/entities.ts. A field that may be null or undefined is an `Option`; so are
-- the fields of a received payload, whatever their declared type, since nothing checks them.
use account_lookup_bc.Prelude.{Number, Rounded, String, Option, List}

abbrev pub Nullable : Type 0
Nullable = Option String

-- `type` is a text: the factory also answers to types that it does not know.
pub record Oracle : Type 0 where
  pub id : String
  pub name : String
  pub oracle_type : String
  pub party_type : Nullable
  pub currency : Nullable
  pub endpoint : Nullable

pub record AddOracleDto : Type 0 where
  pub id : Nullable
  pub name : String
  pub oracle_type : String
  pub party_type : Nullable
  pub currency : Nullable
  pub endpoint : Nullable

pub record Association : Type 0 where
  pub fsp_id : Nullable
  pub party_type : Nullable
  pub party_id : Nullable
  pub party_sub_type : Nullable
  pub currency : Nullable

pub record ParticipantLookup : Type 0 where
  pub party_id : Nullable
  pub party_type : Nullable
  pub party_sub_type : Nullable
  pub currency : Nullable

pub record AssociationsSearchResults : Type 0 where
  pub page_size : Number
  pub total_pages : Rounded
  pub page_index : Number
  pub items : List Association

pub record SearchKeywords : Type 0 where
  pub field_name : String
  pub distinct_terms : List Nullable

-- `AccountLookupErrorCodeNames`
pub data ErrorCode : Type 0 where
  command_type_unknown unable_to_associate_participant : ErrorCode
  unable_to_disassociate_participant destination_participant_not_found : ErrorCode
  source_participant_not_found invalid_destination_participant : ErrorCode
  invalid_source_participant invalid_message_payload invalid_message_type : ErrorCode
  unable_to_get_oracle_adapter unable_to_get_participant_from_oracle : ErrorCode
  required_source_participant_id_mismatch : ErrorCode
  required_source_participant_not_approved : ErrorCode
  required_source_participant_not_active : ErrorCode
  required_destination_participant_id_mismatch : ErrorCode
  required_destination_participant_not_approved : ErrorCode
  required_destination_participant_not_active : ErrorCode
