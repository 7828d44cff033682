-- ===== src/Implementations/Factory.antt =====
-- `OracleAdapterFactory` of packages/implementations-lib/src/oracles/oracleadapter_factory.ts, and
-- `ParticipantAdapter` of packages/implementations-lib/src/external_adapters/participant_adapter.ts.
use account_lookup_bc.Prelude.{
  String, Option, none, List, ◌==◌, if◌then◌else◌, ◌≡◌, sym, ap, ◌∙◌, arith, eq_iff, Bool-cases,
  inl, inr,
}
use account_lookup_bc.Effect.{Result, ok, err, Action, oracle_type_not_supported}
use account_lookup_bc.Types.{Oracle}
use account_lookup_bc.Services.{Participant, OracleAdapter}
use account_lookup_bc.Implementations.Remote.{HttpClient, http_oracle_provider}

-- The built-in adapter is an argument: what its constructor makes of an oracle.
module _ {W : Type 0} (builtin_provider : Oracle → OracleAdapter W) (client : HttpClient W) where
  -- `create`
  unfoldable pub create : Oracle → Result (OracleAdapter W)
  create oracle =
      if oracle.oracle_type == "builtin"
      then ok (builtin_provider oracle)
      else if oracle.oracle_type == "remote-http"
      then ok (http_oracle_provider client oracle)
      else err oracle_type_not_supported

  -- Where the built-in adapters take the id of their oracle and the type "builtin", every adapter
  -- that the factory creates has the id and the type of its oracle.
  pub create-oracle_id :
      ((o : Oracle)
        → ((builtin_provider o).oracle_id ≡ o.id) × ((builtin_provider o).oracle_type ≡ "builtin"))
      → (o : Oracle) (a : OracleAdapter W) → create o ≡ ok a
      → (a.oracle_id ≡ o.id) × (a.oracle_type ≡ o.oracle_type)
  unfolding create http_oracle_provider
  create-oracle_id kept o a h =
      let (id, type) = kept o in
      elim (Bool-cases (o.oracle_type == "builtin")) [
        | inl builtin ↦
            let is : builtin_provider o ≡ a = ground (arith, builtin) in
            (
              ap (λ x. x.oracle_id) (sym is) ∙ id,
              ap (λ x. x.oracle_type) (sym is)
                  ∙ type
                  ∙ sym ((eq_iff o.oracle_type "builtin").0 builtin),
            )
        | inr other ↦ elim (Bool-cases (o.oracle_type == "remote-http")) [
          | inl remote ↦
              let is : http_oracle_provider client o ≡ a = ground (arith, other, remote) in
              (
                ap (λ x. x.oracle_id) (sym is),
                ap (λ x. x.oracle_type) (sym is)
                    ∙ sym ((eq_iff o.oracle_type "remote-http").0 remote),
              )
          | inr neither ↦ ground (arith, other, neither)
        ]
      ]

-- `try { return await …; } catch (e) { return null; }`
abbrev or_null : {W A : Type 0} → Action W (Option A) → Action W (Option A)
or_null call w = let (r, w') = call w in elim r [ ok p ↦ (ok p, w') | err _ ↦ (ok none, w') ]

-- `getParticipantInfo`: a failed call of the participants service is an unknown participant
unfoldable pub get_participant_info :
    {W : Type 0} → (String → Action W (Option Participant)) → String → Action W (Option Participant)
get_participant_info get_participant_by_id fsp_id = or_null (get_participant_by_id fsp_id)

-- `getParticipantsInfo`
unfoldable pub get_participants_info :
    {W : Type 0}
    → (List String → Action W (Option (List Participant)))
    → List String
    → Action W (Option (List Participant))
get_participants_info get_participants_by_ids fsp_ids = or_null (get_participants_by_ids fsp_ids)
