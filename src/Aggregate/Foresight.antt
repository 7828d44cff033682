-- ===== src/Aggregate/Foresight.antt =====
-- The handlers of packages/domain-lib/src/aggregate.ts catch every rejection themselves: each
-- resolves to an event of its own.
use account_lookup_bc.Prelude.{
  Option, none, some, true, false, Bool, List, ◌≡◌, refl, arith, is_truthy, Bool-cases, inl, inr,
}
use account_lookup_bc.Effect.{Result, ok, err, Action, pure, attempt, ◌>>=◌}
use account_lookup_bc.Types.{Nullable}
use account_lookup_bc.Messages.{Payload, Event}
use account_lookup_bc.Services.{OracleAdapter, Services}
use account_lookup_bc.Aggregate.Validate.{Party, validate_requester, validate_destination}
use account_lookup_bc.Aggregate.Handlers.{
  party_of, unless, or_return, both_validated, resolve_destination, fsp_id_from_oracle,
  handle_party_query_received, handle_party_info_available, handle_participant_query_received,
  get_party_rejected, get_participant_rejected, handle_association_request,
  handle_disassociate_request,
}
use account_lookup_bc.Aggregate.Oracles.{get_oracle_adapter}
use account_lookup_bc.Aggregate.HandleEvent.{
  Request, party_query_received, party_info_available, participant_query_received,
  association_request_received, disassociate_request_received, party_rejected, participant_rejected,
  unknown_request, dispatch,
}
use account_lookup_bc.Aggregate.Gate.{
  Kind, success, failure, unforeseen, kind, IsAnswer, validate_requester-IsAnswer,
  validate_destination-IsAnswer,
}

abbrev pub is_foreseen : Kind → Bool
is_foreseen unforeseen = false
is_foreseen _ = true

-- A handler resolves to an event that it foresaw.
abbrev pub IsForeseen : Result Event → Type 0
IsForeseen (ok e) = is_foreseen (kind e) ≡ true
IsForeseen (err _) = ⊥

module _ {W : Type 0} (env : Services W) (adapters : List (OracleAdapter W)) where
  -- `m` resolves to a foreseen event in every state.
  pub record Foresees (m : Action W Event) : Type 0 where
    pub at : (w : W) → IsForeseen (m w).0

  Foresees-pure : (e : Event) → is_foreseen (kind e) ≡ true → Foresees (pure e)
  Foresees-pure e h = record { at = λ w. h }

  Foresees-unless :
      (m : Action W (Option Event)) (rest : Action W Event)
      → ((w : W) → IsAnswer (m w).0)
      → Foresees rest
      → Foresees (m >>= λ objection. unless objection rest)
  Foresees-unless m rest a h = record { at = λ w. go (m w).0 (m w).1 (a w) }
    where
      go :
          (outcome : Result (Option Event)) (w₁ : W)
          → IsAnswer outcome
          → IsForeseen
              ((◌>>=◌ {S = W} (λ _. (outcome, w₁)) (λ objection. unless objection rest)) w₁).0
      go (err _) w₁ b = absurd b
      go (ok none) w₁ b = h.at w₁
      go (ok (some e)) w₁ b = ground arith

  -- `m` resolves in every state, as `attempt` does.
  abbrev Resolves : {A : Type 0} → Action W (Result A) → Type 0
  Resolves m = (w : W) → (m w).0 ≡ ok ((elim (m w).0 [ ok r ↦ r | err x ↦ err x ]))

  Foresees-return :
      {A : Type 0} (m : Action W (Result A)) (event : Event) (rest : A → Action W Event)
      → Resolves m
      → kind event ≡ failure
      → ((a : A) → Foresees (rest a))
      → Foresees (m >>= λ r. or_return r event rest)
  Foresees-return {A} m event rest resolves k h = record {
    at = λ w. go (m w).0 (m w).1 (resolves w);
  }
    where
      go :
          (outcome : Result (Result A)) (w₁ : W)
          → outcome ≡ ok ((elim outcome [ ok r ↦ r | err x ↦ err x ]))
          → IsForeseen ((◌>>=◌ {S = W} (λ _. (outcome, w₁)) (λ r. or_return r event rest)) w₁).0
      go (err _) w₁ b = ground arith
      go (ok (ok a)) w₁ b = (h a).at w₁
      go (ok (err x)) w₁ b = ground arith

  resolve_destination-Resolves : (p : Payload) → Resolves (resolve_destination env adapters p)
  unfolding resolve_destination
  resolve_destination-Resolves p w = elim (Bool-cases (is_truthy p.destination_fsp_id)) [
    | inl named ↦ rw named
    | inr unnamed ↦ rw unnamed
  ]

  requester_answers :
      (party : Party) (id : Nullable) (w : W) → IsAnswer (validate_requester env party id w).0
  requester_answers party id w = validate_requester-IsAnswer env party id w

  destination_answers :
      (party : Party) (id : Nullable) (w : W) → IsAnswer (validate_destination env party id w).0
  destination_answers party id w = validate_destination-IsAnswer env party id w

  both_validated-Foresees :
      (p : Payload) (e : Event)
      → is_foreseen (kind e) ≡ true
      → Foresees (both_validated env adapters p e)
  both_validated-Foresees p e k =
      Foresees-unless _ _ (requester_answers _ _)
        (Foresees-unless _ _ (destination_answers _ _) (Foresees-pure e k))

  -- The rest of a handler that reports `event d` once `d` is cleared.
  destination-Foresees :
      (p : Payload) (event : Nullable → Event)
      → ((d : Nullable) → kind (event d) ≡ success)
      → (d : Nullable)
      → Foresees (
          validate_destination env (party_of p) d >>= λ objection.
          unless objection (pure (event d)))
  destination-Foresees p event k d =
      Foresees-unless _ _ (destination_answers _ _) (Foresees-pure _ (ground (arith, k d)))

  pub dispatch-Foresees : (r : Request) (p : Payload) → Foresees (dispatch env adapters r p)
  unfolding dispatch handle_party_query_received handle_party_info_available
      handle_participant_query_received get_party_rejected get_participant_rejected
      handle_association_request handle_disassociate_request
  dispatch-Foresees party_query_received p = Foresees-unless _ _ (requester_answers _ _) (
      Foresees-return (resolve_destination env adapters p) _ _ (resolve_destination-Resolves p) refl
        (destination-Foresees p _ (λ d. refl)))
  dispatch-Foresees party_info_available p = both_validated-Foresees p _ refl
  dispatch-Foresees participant_query_received p = Foresees-unless _ _ (requester_answers _ _) (
      Foresees-return (attempt (fsp_id_from_oracle env adapters p)) _ _ (λ w. refl) refl
        (destination-Foresees p _ (λ d. refl)))
  dispatch-Foresees association_request_received p = Foresees-unless _ _ (requester_answers _ _) (
      Foresees-return (attempt (get_oracle_adapter env adapters p.party_type p.currency)) _ _
        (λ w. refl) refl
        (λ a.
          Foresees-return
            (attempt (
              a.associate_participant p.owner_fsp_id p.party_type p.party_id p.party_sub_type
                p.currency))
            _ _ (λ w. refl) refl (λ _. Foresees-pure _ refl)))
  dispatch-Foresees disassociate_request_received p = Foresees-unless _ _ (requester_answers _ _) (
      Foresees-return (attempt (get_oracle_adapter env adapters p.party_type p.currency)) _ _
        (λ w. refl) refl
        (λ a.
          Foresees-return
            (attempt (
              a.disassociate_participant p.owner_fsp_id p.party_type p.party_id p.party_sub_type
                p.currency))
            _ _ (λ w. refl) refl (λ _. Foresees-pure _ refl)))
  dispatch-Foresees party_rejected p = both_validated-Foresees p _ refl
  dispatch-Foresees participant_rejected p = both_validated-Foresees p _ refl
  dispatch-Foresees unknown_request p = Foresees-pure _ refl
