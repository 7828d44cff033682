-- ===== src/HttpOracle/Outcomes.antt =====
-- What the operations of packages/http-oracle-svc/src/remote_oracle.ts do to later lookups.
use account_lookup_bc.Prelude.{
  String, none, some, true, ◌≡◌, refl, sym, ap, subst, false, ◌∙◌, ◌==◌, arith, eq_iff,
  Option-cases, Bool-cases, inl, inr, if◌then◌else◌,
}
use account_lookup_bc.Effect.{ok, other, err}
use account_lookup_bc.Types.{Nullable, Association}
use account_lookup_bc.HttpOracle.{
  Entries, map_get, map_set, map_delete, Files, OracleState, create_key, association_of_party,
  party_key, save_to_file, get_participant_fsp_id, associate_participant, is_held_by,
  disassociate_participant,
}
use account_lookup_bc.HttpOracle.Table.{
  IsKeyed, map_get-map_set, map_get-map_delete, map_set-IsKeyed, map_delete-IsKeyed,
}

module _ {W : Type 0} (fs : Files W) where
  -- The memory and the file after a change to `entries`.
  abbrev pub IsChanged : Entries → OracleState W → OracleState W → Type 0
  IsChanged entries s s' =
      (s'.associations ≡ entries) × (save_to_file fs entries s.files ≡ (ok tt, s'.files))

  module _ (fsp_id party_type party_id party_sub_type currency : Nullable) (s : OracleState W) where
    abbrev k : String
    k = party_key party_type party_id party_sub_type currency

    abbrev new_entry : Association
    new_entry = association_of_party fsp_id party_type party_id party_sub_type currency

    pub associate_resolved :
        (s' : OracleState W)
        → associate_participant fs fsp_id party_type party_id party_sub_type currency s
          ≡ (ok tt, s')
        → (map_get k s.associations ≡ none) × IsChanged (map_set k new_entry s.associations) s s'
    unfolding associate_participant
    associate_resolved s' h = elim (Option-cases (map_get k s.associations)) [
      | inl new ↦ (new, (ground (arith, new), ground (arith, new)))
      | inr (a, known) ↦ ground (arith, known)
    ]

    pub associate_known :
        (a : Association)
        → map_get k s.associations ≡ some a
        → associate_participant fs fsp_id party_type party_id party_sub_type currency s
          ≡ (err (other "Duplicate association found"), s)
    unfolding associate_participant
    associate_known a known = ground (arith, known)

    pub associate_new :
        map_get k s.associations ≡ none
        → (associate_participant fs fsp_id party_type party_id party_sub_type currency
            s).1.associations
          ≡ map_set k new_entry s.associations
    unfolding associate_participant
    associate_new new = ground (arith, new)

    pub key_of_party : create_key new_entry ≡ k
    unfolding create_key
    key_of_party = refl

    -- Whether it resolves or rejects, `associateParticipant` leaves a well-formed map well-formed:
    -- every entry stands under the key of its association, and no key occurs twice.
    pub associate_participant-IsKeyed :
        IsKeyed s.associations
        → IsKeyed
            (associate_participant fs fsp_id party_type party_id party_sub_type currency
              s).1.associations
    associate_participant-IsKeyed keyed = elim (Option-cases (map_get k s.associations)) [
      | inl new ↦
          subst IsKeyed
            (ap (λ j. map_set j new_entry s.associations) key_of_party ∙ sym (associate_new new))
            (map_set-IsKeyed new_entry s.associations keyed)
      | inr (a, known) ↦
          subst IsKeyed (ap (λ o. o.1.associations) (sym (associate_known a known))) keyed
    ]

    pub disassociate_resolved :
        (s' : OracleState W)
        → disassociate_participant fs fsp_id party_type party_id party_sub_type currency s
          ≡ (ok tt, s')
        → (is_held_by fsp_id (map_get k s.associations) ≡ true)
          × IsChanged (map_delete k s.associations) s s'
    unfolding disassociate_participant
    disassociate_resolved s' h = (ground arith, (ground arith, ground arith))

    pub disassociate_held :
        is_held_by fsp_id (map_get k s.associations) ≡ true
        → (disassociate_participant fs fsp_id party_type party_id party_sub_type currency
            s).1.associations
          ≡ map_delete k s.associations
    unfolding disassociate_participant
    disassociate_held held = ground (arith, held)

    pub disassociate_free :
        is_held_by fsp_id (map_get k s.associations) ≡ false
        → disassociate_participant fs fsp_id party_type party_id party_sub_type currency s
          ≡ (err (other "No association found"), s)
    unfolding disassociate_participant
    disassociate_free free = ground (arith, free)

    -- Whether it resolves or rejects, `disassociateParticipant` leaves a well-formed map
    -- well-formed.
    pub disassociate_participant-IsKeyed :
        IsKeyed s.associations
        → IsKeyed
            (disassociate_participant fs fsp_id party_type party_id party_sub_type currency
              s).1.associations
    disassociate_participant-IsKeyed keyed =
        elim (Bool-cases (is_held_by fsp_id (map_get k s.associations))) [
          | inl held ↦
              subst IsKeyed (sym (disassociate_held held))
                (map_delete-IsKeyed k s.associations keyed)
          | inr free ↦
              subst IsKeyed (ap (λ o. o.1.associations) (sym (disassociate_free free))) keyed
        ]

  module _ (fsp_id party_type party_id party_sub_type currency : Nullable)
      (s s' : OracleState W) where
    -- After an association that resolves, every lookup under the party's key answers with the new
    -- FSP, and every lookup under another key answers as before.
    pub get_participant_fsp_id-associate_participant :
        associate_participant fs fsp_id party_type party_id party_sub_type currency s ≡ (ok tt, s')
        → (t i u c : Nullable)
        → (get_participant_fsp_id fs t i u c s').0 ≡ (
            if party_key party_type party_id party_sub_type currency == party_key t i u c
            then ok fsp_id
            else (get_participant_fsp_id fs t i u c s).0)
    unfolding get_participant_fsp_id
    get_participant_fsp_id-associate_participant h t i u c =
        let (new, (changed, saved)) =
          associate_resolved fsp_id party_type party_id party_sub_type currency s s' h in
        ground (
          arith,
          changed,
          map_get-map_set (party_key t i u c)
              (party_key party_type party_id party_sub_type currency)
              (association_of_party fsp_id party_type party_id party_sub_type currency)
              s.associations,
        )

    -- After a disassociation that resolves on a well-formed map, every lookup under the party's key
    -- answers with null, and every lookup under another key answers as before.
    pub get_participant_fsp_id-disassociate_participant :
        IsKeyed s.associations
        → disassociate_participant fs fsp_id party_type party_id party_sub_type currency s
          ≡ (ok tt, s')
        → (t i u c : Nullable)
        → (get_participant_fsp_id fs t i u c s').0 ≡ (
            if party_key party_type party_id party_sub_type currency == party_key t i u c
            then ok none
            else (get_participant_fsp_id fs t i u c s).0)
    unfolding get_participant_fsp_id
    get_participant_fsp_id-disassociate_participant keyed h t i u c =
        let (held, (changed, saved)) =
          disassociate_resolved fsp_id party_type party_id party_sub_type currency s s' h in
        ground (
          arith,
          changed,
          map_get-map_delete (party_key t i u c)
              (party_key party_type party_id party_sub_type currency) s.associations keyed,
        )

    party_key_sub_type :
        (u : Nullable)
        → party_key party_type party_id u currency
          ≡ party_key party_type party_id party_sub_type currency
    unfolding create_key
    party_key_sub_type u = refl

    -- Once a party is associated under one sub type, an association of the same party under any
    -- other sub type is rejected, and nothing changes.
    pub associate_participant_second :
        (u f : Nullable)
        → associate_participant fs fsp_id party_type party_id party_sub_type currency s
          ≡ (ok tt, s')
        → associate_participant fs f party_type party_id u currency s'
          ≡ (err (other "Duplicate association found"), s')
    associate_participant_second u f h =
        let (new, (changed, saved)) =
          associate_resolved fsp_id party_type party_id party_sub_type currency s s' h in
        associate_known f party_type party_id u currency s'
          (association_of_party fsp_id party_type party_id party_sub_type currency)
          (ground (
            arith,
            changed,
            party_key_sub_type u,
            map_get-map_set (party_key party_type party_id u currency)
                (party_key party_type party_id party_sub_type currency)
                (association_of_party fsp_id party_type party_id party_sub_type currency)
                s.associations,
            eq_iff (party_key party_type party_id u currency)
                (party_key party_type party_id party_sub_type currency),
          ))
