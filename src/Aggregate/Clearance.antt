-- ===== src/Aggregate/Clearance.antt =====
-- What passing the validations of packages/domain-lib/src/aggregate.ts means.
use account_lookup_bc.Prelude.{String, Option, none, some, true, ◌≡◌, refl, ◌≢◌, ◌↔◌, arith, eq_iff}
use account_lookup_bc.Effect.{Result, ok, err}
use account_lookup_bc.Types.{Nullable}
use account_lookup_bc.Services.{Participant, Services}
use account_lookup_bc.Aggregate.Validate.{
  Party, requester_objection, destination_objection, validate_requester, validate_destination,
}

-- Asked in the state `w` for the FSP `id`, the participant service has answered with a participant
-- of that id which is approved and active, and has left the state `w'`.
pub record IsCleared {W : Type 0} (env : Services W) (id : Nullable) (w w' : W) : Type 0 where
  pub name : String
  pub participant : Participant
  pub given : id ≡ some name
  pub nonempty : name ≢ ""
  pub found : env.get_participant_info name w ≡ (ok (some participant), w')
  pub same : participant.id ≡ name
  pub approved : participant.approved ≡ true
  pub active : participant.is_active ≡ true

-- An outcome of the call to which neither validation objects.
abbrev Passes : String → Result (Option Participant) → Type 0
Passes name outcome =
    (p : Participant) × (outcome ≡ ok (some p))
    × (p.id ≡ name)
    × (p.approved ≡ true)
    × (p.is_active ≡ true)

requester_objection-Passes :
    (party : Party) (name : String) (outcome : Result (Option Participant))
    → requester_objection party name outcome ≡ none
    → Passes name outcome
unfolding requester_objection
requester_objection-Passes party name (err e) h = cc
requester_objection-Passes party name (ok none) h = cc
requester_objection-Passes party name (ok (some p)) h =
    (p, refl, ground (arith, eq_iff p.id name), ground arith, ground arith)

destination_objection-Passes :
    (party : Party) (name : String) (outcome : Result (Option Participant))
    → destination_objection party name outcome ≡ none
    → Passes name outcome
unfolding destination_objection
destination_objection-Passes party name (err e) h = cc
destination_objection-Passes party name (ok none) h = cc
destination_objection-Passes party name (ok (some p)) h =
    (p, refl, ground (arith, eq_iff p.id name), ground arith, ground arith)

module _ {W : Type 0} (env : Services W) (party : Party) where
  Passes-IsCleared :
      (name : String) (w w' : W)
      → name ≢ ""
      → Passes name (env.get_participant_info name w).0
      → (env.get_participant_info name w).1 ≡ w'
      → IsCleared env (some name) w w'
  Passes-IsCleared name w w' ne (p, found, same, approved, active) left = record {
    name = name;
    participant = p;
    given = refl;
    nonempty = ne;
    found = ground arith;
    same = same;
    approved = approved;
    active = active;
  }

  validate_requester_sound :
      (id : Nullable) (w w' : W)
      → validate_requester env party id w ≡ (ok none, w')
      → IsCleared env id w w'
  unfolding validate_requester
  validate_requester_sound none w w' h = ground arith
  validate_requester_sound (some name) w w' h =
      Passes-IsCleared name w w' (λ e. ground (arith, eq_iff name ""))
        (requester_objection-Passes party name _ (ground (arith, eq_iff name "")))
        (ground (arith, eq_iff name ""))

  validate_requester_complete :
      (id : Nullable) (w w' : W)
      → IsCleared env id w w'
      → validate_requester env party id w ≡ (ok none, w')
  unfolding validate_requester requester_objection
  validate_requester_complete id w w' c =
      ground (arith, c.given, c.found, c.same, eq_iff c.name "", eq_iff c.participant.id c.name)

  validate_destination_sound :
      (id : Nullable) (w w' : W)
      → validate_destination env party id w ≡ (ok none, w')
      → IsCleared env id w w'
  unfolding validate_destination
  validate_destination_sound none w w' h = ground arith
  validate_destination_sound (some name) w w' h =
      Passes-IsCleared name w w' (λ e. ground (arith, eq_iff name ""))
        (destination_objection-Passes party name _ (ground (arith, eq_iff name "")))
        (ground (arith, eq_iff name ""))

  validate_destination_complete :
      (id : Nullable) (w w' : W)
      → IsCleared env id w w'
      → validate_destination env party id w ≡ (ok none, w')
  unfolding validate_destination destination_objection
  validate_destination_complete id w w' c =
      ground (arith, c.given, c.found, c.same, eq_iff c.name "", eq_iff c.participant.id c.name)

  -- The requester's validation lets an FSP id through exactly when it is cleared: it is not empty,
  -- and the service knows it as an approved and active participant of that very id. The two
  -- sides agree on the state that the call of the service leaves.
  pub validate_requester-IsCleared_iff :
      (id : Nullable) (w w' : W)
      → (validate_requester env party id w ≡ (ok none, w')) ↔ IsCleared env id w w'
  validate_requester-IsCleared_iff id w w' =
      (validate_requester_sound id w w', validate_requester_complete id w w')

  -- The destination's validation lets an FSP id through exactly when it is cleared, in the same
  -- sense as the requester's.
  pub validate_destination-IsCleared_iff :
      (id : Nullable) (w w' : W)
      → (validate_destination env party id w ≡ (ok none, w')) ↔ IsCleared env id w w'
  validate_destination-IsCleared_iff id w w' =
      (validate_destination_sound id w w', validate_destination_complete id w w')
