-- ===== src/Aggregate/Queries.antt =====
-- What the queries over all oracles of packages/domain-lib/src/aggregate.ts return, and how
-- `getAccountLookUp` reports a failure.
use account_lookup_bc.Prelude.{
  false, List, [], ◌∷◌, ◌++◌, ◌==◌, filter, is_truthy, ◌≡◌, refl, ◌↔◌, inl, inr, arith,
}
use account_lookup_bc.Effect.{Error, ok, err, Action, Result-cases, participant_not_found}
use account_lookup_bc.Types.{Nullable, Oracle, Association, ParticipantLookup}
use account_lookup_bc.Services.{OracleAdapter, Services}
use account_lookup_bc.Aggregate.Oracles.{get_oracle_adapter, get_participant_id_from_oracle}
use account_lookup_bc.Aggregate.Admin.{
  State, ask_oracles, get_builtin_oracle_associations, lookup_error, get_account_lookup,
}
use account_lookup_bc.Aggregate.Answer.{
  IsAdapterFor, get_oracle_adapter-IsAdapterFor_iff, IsReply, id_from_oracle_not_found_iff,
}

lookup_error_reflects :
    (e : Error) → lookup_error e ≡ participant_not_found → e ≡ participant_not_found
lookup_error_reflects participant_not_found h = refl
lookup_error_reflects _ h = cc

module _ {W : Type 0} (env : Services W) where
  module _ {A : Type 0} (adapters : List (OracleAdapter W))
      (ask : OracleAdapter W → Action W A) where
    -- The adapter chosen for an oracle has given this answer, after all the calls before.
    abbrev pub IsAnswerOf : Oracle → A → W → Type 0
    IsAnswerOf o answer w' =
        (a : OracleAdapter W) × (s : W) × (s' : W) × IsAdapterFor env adapters o.party_type
          o.currency s a s'
        × (ask a s' ≡ (ok answer, w'))

    ask_oracles_last :
        (os : List Oracle) (o : Oracle) (start answer : A) (w w' : W)
        → ask_oracles env adapters ask (os ++ o ∷ []) start w ≡ (ok answer, w')
        → IsAnswerOf o answer w'
    unfolding ask_oracles
    ask_oracles_last [] o start answer w w' h =
        let out = get_oracle_adapter env adapters o.party_type o.currency w in
        elim (Result-cases out.0) [
          | inl (a, found) ↦ elim (Result-cases (ask a out.1).0) [
            | inl (r, replied) ↦ (
              a,
              w,
              out.1,
              (get_oracle_adapter-IsAdapterFor_iff env adapters o.party_type o.currency w out.1 a).0
                  (ground arith),
              ground arith,
            )
            | inr (x, failed) ↦ ground arith
          ]
          | inr (x, missing) ↦ ground arith
        ]
    ask_oracles_last (p ∷ os) o start answer w w' h =
        let out = get_oracle_adapter env adapters p.party_type p.currency w in
        elim (Result-cases out.0) [
          | inl (a, found) ↦ elim (Result-cases (ask a out.1).0) [
            | inl (r, replied) ↦ ask_oracles_last os o r answer (ask a out.1).1 w' (ground arith)
            | inr (x, failed) ↦ ground arith
          ]
          | inr (x, missing) ↦ ground arith
        ]

  -- If at least one built-in oracle is listed and `getBuiltInOracleAssociations` resolves, it
  -- returns the associations of the last one's adapter alone: each answer takes the place of the
  -- one before.
  pub builtin_associations_of_last :
      (l os : List Oracle) (o : Oracle) (s s' : State W) (w : W) (answer : List Association)
      → env.finder.get_all_oracles s.world ≡ (ok l, w)
      → filter (λ p. p.oracle_type == "builtin") l ≡ os ++ o ∷ []
      → get_builtin_oracle_associations env s ≡ (ok answer, s')
      → IsAnswerOf s.adapters (λ a. a.get_all_associations) o answer s'.world
  unfolding get_builtin_oracle_associations
  builtin_associations_of_last l os o s s' w answer listed builtin h =
      ask_oracles_last s.adapters (λ a. a.get_all_associations) os o [] answer w s'.world
        (rw (← builtin) (ground arith))

  module _ (p : ParticipantLookup) (s s' : State W) where
    -- `getAccountLookUp` rejects with ParticipantNotFoundError exactly when the adapter chosen for
    -- the party type and the currency has replied, with null or an empty id. The adapters stay.
    pub get_account_lookup_not_found_iff :
        (get_account_lookup env p s ≡ (err participant_not_found, s')) ↔ (
          (answer : Nullable) × IsReply env s.adapters p.party_id p.party_type p.party_sub_type
            p.currency s.world answer s'.world
          × (is_truthy answer ≡ false)
          × (s'.adapters ≡ s.adapters))
    unfolding get_account_lookup
    get_account_lookup_not_found_iff = (
      (λ h.
          let out =
            get_participant_id_from_oracle env s.adapters p.party_id p.party_type p.party_sub_type
              p.currency s.world in
          elim (Result-cases out.0) [
            | inl (id, found) ↦ ground arith
            | inr (e, failed) ↦
                let is = lookup_error_reflects e (ground arith) in
                let (answer, reply, falsy) = not_found.0 (ground arith) in
                (answer, reply, falsy, ground arith)
          ]),
      λ (answer, reply, falsy, same). ground (arith, not_found.1 (answer, reply, falsy)),
    )
      where
        not_found :
            (get_participant_id_from_oracle env s.adapters p.party_id p.party_type p.party_sub_type
                p.currency s.world
              ≡ (err participant_not_found, s'.world))
            ↔ ((answer : Nullable) × IsReply env s.adapters p.party_id p.party_type p.party_sub_type
                  p.currency s.world answer s'.world
                × (is_truthy answer ≡ false))
        not_found =
            id_from_oracle_not_found_iff env s.adapters p.party_id p.party_type p.party_sub_type
              p.currency s.world s'.world
