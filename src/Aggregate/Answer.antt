-- ===== src/Aggregate/Answer.antt =====
-- When the oracle chosen for a party answers with an FSP id, and when it is said to know none.
use account_lookup_bc.Prelude.{
  String, Option, none, some, false, List, ◌≡◌, refl, ◌≢◌, ◌↔◌, inl, inr, arith, eq_iff,
  Option-cases, is_truthy,
}
use account_lookup_bc.Effect.{Result, ok, err, Result-cases, participant_not_found}
use account_lookup_bc.Types.{Nullable, Oracle}
use account_lookup_bc.Services.{OracleAdapter, Services}
use account_lookup_bc.Aggregate.Oracles.{
  find_adapter, adapter_of, required_fsp_id, get_oracle_adapter, get_participant_id_from_oracle,
}

module _ {W : Type 0} (env : Services W) (adapters : List (OracleAdapter W)) where
  -- The finder has chosen an oracle for the party type and the currency, its adapter is registered.
  pub record IsAdapterFor (party_type currency : Nullable) (w : W) (a : OracleAdapter W) (w' : W)
      : Type 0 where
    pub oracle : Oracle
    pub chosen : env.finder.get_oracle party_type currency w ≡ (ok (some oracle), w')
    pub registered : find_adapter oracle.id adapters ≡ some a

  -- That adapter has answered with `answer`, null included.
  pub record IsReply (party_id party_type party_sub_type currency : Nullable) (w : W)
      (answer : Nullable) (w' : W) : Type 0 where
    pub adapter : OracleAdapter W
    pub between : W
    pub adapter_for : IsAdapterFor party_type currency w adapter between
    pub replied :
        adapter.get_participant_fsp_id party_type party_id party_sub_type currency between
        ≡ (ok answer, w')

  adapter_of_sound :
      (o : Option Oracle) (w w' : W) (a : OracleAdapter W)
      → adapter_of adapters o w ≡ (ok a, w')
      → (oracle : Oracle) × (o ≡ some oracle)
        × (find_adapter oracle.id adapters ≡ some a)
        × (w ≡ w')
  adapter_of_sound none w w' a h = cc
  adapter_of_sound (some oracle) w w' a h = elim (Option-cases (find_adapter oracle.id adapters)) [
    | inl missing ↦ ground arith
    | inr (b, found) ↦ (oracle, refl, ground arith, ground arith)
  ]

  module _ (party_type currency : Nullable) (w w' : W) (a : OracleAdapter W) where
    get_oracle_adapter_sound :
        get_oracle_adapter env adapters party_type currency w ≡ (ok a, w')
        → IsAdapterFor party_type currency w a w'
    unfolding get_oracle_adapter
    get_oracle_adapter_sound h =
        let out = env.finder.get_oracle party_type currency w in
        elim (Result-cases out.0) [
          | inl (o, e) ↦
              let (oracle, chosen, registered, left) =
                adapter_of_sound o out.1 w' a (ground arith) in
              record { oracle = oracle; chosen = ground arith; registered = registered }
          | inr (x, e) ↦ ground arith
        ]

    -- The adapter is found exactly when the finder chooses an oracle whose adapter is registered.
    pub get_oracle_adapter-IsAdapterFor_iff :
        (get_oracle_adapter env adapters party_type currency w ≡ (ok a, w'))
        ↔ IsAdapterFor party_type currency w a w'
    unfolding get_oracle_adapter
    get_oracle_adapter-IsAdapterFor_iff =
        (get_oracle_adapter_sound, λ h. ground (arith, h.chosen, h.registered))

  module _ (party_id party_type party_sub_type currency : Nullable) (w w' : W) where
    required_fsp_id_sound :
        (answer : Nullable) (s : W) (id : String)
        → required_fsp_id answer s ≡ (ok id, w')
        → (answer ≡ some id) × (id ≢ "") × (s ≡ w')
    required_fsp_id_sound none s id h = cc
    required_fsp_id_sound (some x) s id h = (
      ground (arith, eq_iff x ""),
      (λ e. ground (arith, eq_iff x "")),
      ground (arith, eq_iff x ""),
    )

    required_fsp_id_refuses :
        (answer : Nullable) (s : W)
        → required_fsp_id answer s ≡ (err participant_not_found, w')
        → (is_truthy answer ≡ false) × (s ≡ w')
    required_fsp_id_refuses none s h = (refl, ground arith)
    required_fsp_id_refuses (some x) s h =
        (ground (arith, eq_iff x ""), ground (arith, eq_iff x ""))

    -- The call in question, and its two parts.
    abbrev lookup_outcome : Result String × W
    lookup_outcome =
        get_participant_id_from_oracle env adapters party_id party_type party_sub_type currency w

    parts-IsReply :
        (a : OracleAdapter W) (s : W) (answer : Nullable)
        → get_oracle_adapter env adapters party_type currency w ≡ (ok a, s)
        → a.get_participant_fsp_id party_type party_id party_sub_type currency s ≡ (ok answer, w')
        → IsReply party_id party_type party_sub_type currency w answer w'
    parts-IsReply a s answer chosen replied = record {
      adapter = a;
      between = s;
      adapter_for = (get_oracle_adapter-IsAdapterFor_iff party_type currency w s a).0 chosen;
      replied = replied;
    }

    id_from_oracle_sound :
        (id : String)
        → lookup_outcome ≡ (ok id, w')
        → IsReply party_id party_type party_sub_type currency w (some id) w' × (id ≢ "")
    unfolding get_participant_id_from_oracle
    id_from_oracle_sound id h =
        let out = get_oracle_adapter env adapters party_type currency w in
        elim (Result-cases out.0) [
          | inl (a, e) ↦
              let reply =
                a.get_participant_fsp_id party_type party_id party_sub_type currency out.1 in
              elim (Result-cases reply.0) [
                | inl (answer, e') ↦
                    let (given, nonempty, left) =
                      required_fsp_id_sound answer reply.1 id (ground arith) in
                    (parts-IsReply a out.1 (some id) (ground arith) (ground arith), nonempty)
                | inr (x, e') ↦ ground arith
              ]
          | inr (x, e) ↦ ground arith
        ]

    id_from_oracle_complete :
        (id : String)
        → IsReply party_id party_type party_sub_type currency w (some id) w' × (id ≢ "")
        → lookup_outcome ≡ (ok id, w')
    unfolding get_participant_id_from_oracle
    id_from_oracle_complete id (r, ne) =
        let chosen =
          (get_oracle_adapter-IsAdapterFor_iff party_type currency w r.between r.adapter).1
            r.adapter_for in
        ground (arith, chosen, r.replied, eq_iff id "")

    get_oracle_adapter_refuses :
        (s : W)
        → get_oracle_adapter env adapters party_type currency w ≡ (err participant_not_found, s)
        → ⊥
    unfolding get_oracle_adapter
    get_oracle_adapter_refuses s h =
        let out = env.finder.get_oracle party_type currency w in
        elim (Result-cases out.0) [
          | inl (none, e) ↦ ground arith
          | inl (some oracle, e) ↦ ground arith
          | inr (x, e) ↦ ground arith
        ]

    id_from_oracle_refuses :
        lookup_outcome ≡ (err participant_not_found, w')
        → (answer : Nullable) × IsReply party_id party_type party_sub_type currency w answer w'
          × (is_truthy answer ≡ false)
    unfolding get_participant_id_from_oracle
    id_from_oracle_refuses h =
        let out = get_oracle_adapter env adapters party_type currency w in
        elim (Result-cases out.0) [
          | inl (a, e) ↦
              let reply =
                a.get_participant_fsp_id party_type party_id party_sub_type currency out.1 in
              elim (Result-cases reply.0) [
                | inl (answer, e') ↦
                    let (falsy, left) = required_fsp_id_refuses answer reply.1 (ground arith) in
                    (answer, parts-IsReply a out.1 answer (ground arith) (ground arith), falsy)
                | inr (x, e') ↦ ground arith
              ]
          | inr (x, e) ↦ absurd (get_oracle_adapter_refuses w' (ground arith))
        ]

    id_from_oracle_misses :
        (answer : Nullable) × IsReply party_id party_type party_sub_type currency w answer w'
          × (is_truthy answer ≡ false)
        → lookup_outcome ≡ (err participant_not_found, w')
    unfolding get_participant_id_from_oracle
    id_from_oracle_misses (answer, r, falsy) =
        let chosen =
          (get_oracle_adapter-IsAdapterFor_iff party_type currency w r.between r.adapter).1
            r.adapter_for in
        ground (arith, chosen, r.replied, falsy)

    -- The lookup resolves to an FSP id exactly when the adapter chosen for the party type and the
    -- currency has replied with that id, and the id is not empty.
    pub id_from_oracle_iff :
        (id : String)
        → (get_participant_id_from_oracle env adapters party_id party_type party_sub_type currency w
            ≡ (ok id, w'))
          ↔ (IsReply party_id party_type party_sub_type currency w (some id) w' × (id ≢ ""))
    id_from_oracle_iff id = (id_from_oracle_sound id, id_from_oracle_complete id)

    -- The lookup rejects with ParticipantNotFoundError exactly when the chosen adapter has replied, with
    -- null or an empty id: no failure of the finder or of the adapter is reported that way.
    pub id_from_oracle_not_found_iff :
        (get_participant_id_from_oracle env adapters party_id party_type party_sub_type currency w
          ≡ (err participant_not_found, w'))
        ↔ ((answer : Nullable) × IsReply party_id party_type party_sub_type currency w answer w'
            × (is_truthy answer ≡ false))
    id_from_oracle_not_found_iff = (id_from_oracle_refuses, id_from_oracle_misses)
