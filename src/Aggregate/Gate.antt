-- ===== src/Aggregate/Gate.antt =====
-- Nothing past a validation happens for a participant that is not cleared.
use account_lookup_bc.Prelude.{String, Option, none, some, ◌≡◌, refl, arith}
use account_lookup_bc.Effect.{Result, ok, err, Action, ◌>>=◌}
use account_lookup_bc.Types.{Nullable}
use account_lookup_bc.Messages.{
  Event, party_info_requested, party_query_response, participant_query_response,
  party_rejected_response, participant_rejected_response, participant_association_created,
  participant_association_removed, unable_to_get_participant_from_oracle_error,
  unable_to_get_oracle_adapter_error, unable_to_associate_participant_error,
  unable_to_disassociate_participant_error, invalid_message_payload_error,
  invalid_message_type_error, unknown_error,
}
use account_lookup_bc.Services.{Participant, Services}
use account_lookup_bc.Aggregate.Validate.{
  Party, requester_objection, destination_objection, validate_requester, validate_destination,
}
use account_lookup_bc.Aggregate.Handlers.{unless}
use account_lookup_bc.Aggregate.Clearance.{
  IsCleared, validate_requester-IsCleared_iff, validate_destination-IsCleared_iff,
}

-- What an event reports: a success, an objection of a validation, a failure to reach or to use the
-- oracle, a message that is malformed, or an error that no handler foresaw.
pub data Kind : Type 0 where
  success refusal failure malformed unforeseen : Kind

abbrev pub kind : Event → Kind
kind (party_info_requested _) = success
kind (party_query_response _) = success
kind (participant_query_response _) = success
kind (party_rejected_response _) = success
kind (participant_rejected_response _) = success
kind (participant_association_created _) = success
kind (participant_association_removed _) = success
kind (unable_to_get_participant_from_oracle_error _) = failure
kind (unable_to_get_oracle_adapter_error _) = failure
kind (unable_to_associate_participant_error _) = failure
kind (unable_to_disassociate_participant_error _) = failure
kind (invalid_message_payload_error _) = malformed
kind (invalid_message_type_error _) = malformed
kind (unknown_error _) = unforeseen
kind _ = refusal

abbrev IsObjection : Option Event → Type 0
IsObjection none = Unit
IsObjection (some e) = kind e ≡ refusal

requester_objection-IsObjection :
    (party : Party) (name : String) (outcome : Result (Option Participant))
    → IsObjection (requester_objection party name outcome)
unfolding requester_objection
requester_objection-IsObjection party name (err e) = refl
requester_objection-IsObjection party name (ok none) = refl
requester_objection-IsObjection party name (ok (some p)) = ground arith

destination_objection-IsObjection :
    (party : Party) (name : String) (outcome : Result (Option Participant))
    → IsObjection (destination_objection party name outcome)
unfolding destination_objection
destination_objection-IsObjection party name (err e) = refl
destination_objection-IsObjection party name (ok none) = refl
destination_objection-IsObjection party name (ok (some p)) = ground arith

-- A validation never rejects: it answers with an objection or with none.
abbrev pub IsAnswer : Result (Option Event) → Type 0
IsAnswer (ok objection) = IsObjection objection
IsAnswer (err e) = ⊥

-- After an answered validation a success can only come from the rest of the handler.
unless_passes :
    {W : Type 0} (outcome : Result (Option Event)) (w w' : W) (rest : Action W Event) (e : Event)
    → IsAnswer outcome
    → (◌>>=◌ {S = W} (λ _. (outcome, w)) (λ objection. unless objection rest)) w ≡ (ok e, w')
    → kind e ≡ success
    → (outcome ≡ ok none) × (rest w ≡ (ok e, w'))
unless_passes (err _) w w' rest e a h s = absurd a
unless_passes (ok none) w w' rest e a h s = (refl, h)
unless_passes (ok (some o)) w w' rest e a h s = ground arith

module _ {W : Type 0} (env : Services W) (party : Party) (id : Nullable) (w : W) where
  pub validate_requester-IsAnswer : IsAnswer (validate_requester env party id w).0
  unfolding validate_requester
  validate_requester-IsAnswer = answer id
    where
      answer : (id : Nullable) → IsAnswer (validate_requester env party id w).0
      answer none = refl
      answer (some name) =
          ground
            (arith, requester_objection-IsObjection party name (env.get_participant_info name w).0)

  pub validate_destination-IsAnswer : IsAnswer (validate_destination env party id w).0
  unfolding validate_destination
  validate_destination-IsAnswer = answer id
    where
      answer : (id : Nullable) → IsAnswer (validate_destination env party id w).0
      answer none = refl
      answer (some name) =
          ground (
            arith,
            destination_objection-IsObjection party name (env.get_participant_info name w).0,
          )

  module _ (rest : Action W Event) (e : Event) (w' : W) where
    pub requester-IsCleared :
        (validate_requester env party id >>= λ objection. unless objection rest) w ≡ (ok e, w')
        → kind e ≡ success
        → (w₁ : W) × IsCleared env id w w₁ × (rest w₁ ≡ (ok e, w'))
    requester-IsCleared h s =
        let out = validate_requester env party id w in
        let (passed, later) = unless_passes out.0 out.1 w' rest e validate_requester-IsAnswer h s in
        (out.1, (validate_requester-IsCleared_iff env party id w out.1).0 (ground arith), later)

    pub destination-IsCleared :
        (validate_destination env party id >>= λ objection. unless objection rest) w ≡ (ok e, w')
        → kind e ≡ success
        → (w₁ : W) × IsCleared env id w w₁ × (rest w₁ ≡ (ok e, w'))
    destination-IsCleared h s =
        let out = validate_destination env party id w in
        let (passed, later) =
          unless_passes out.0 out.1 w' rest e validate_destination-IsAnswer h s in
        (out.1, (validate_destination-IsCleared_iff env party id w out.1).0 (ground arith), later)
