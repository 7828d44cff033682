-- ===== src/HttpOracle/Directory/Refinement.antt =====
-- That the map of packages/http-oracle-svc/src/remote_oracle.ts is the directory that it stands for.
use account_lookup_bc.Prelude.{
  none, some, true, false, List, [], ◌∷◌, Bool-cases, Option-cases, ◌≡◌, refl, sym, subst, ap, ◌∙◌,
  inl, inr, arith, if◌then◌else◌,
}
use account_lookup_bc.Effect.{Result, ok, err, Result-cases, other}
use account_lookup_bc.Types.{Nullable, Association}
use account_lookup_bc.HttpOracle.{
  Entries, values, map_get, map_set, map_delete, Files, OracleState, association_of_party,
  is_held_by, save_to_file, get_participant_fsp_id, associate_participant, disassociate_participant,
}
use account_lookup_bc.HttpOracle.Table.{
  IsKeyed, map_get-map_set, map_get-map_delete, map_set-IsKeyed, map_delete-IsKeyed,
}
use account_lookup_bc.HttpOracle.Outcomes.{key_of_party, associate_known, disassociate_free}
use account_lookup_bc.HttpOracle.Directory.{
  Account, Call, look_up, associate, disassociate, Directory, enter, leave, account_key,
  is_listed_as, specified, replay, is_made, after_write, IsServed, AreServed, listed_as_held,
  perform, Represents,
}

module _ {W : Type 0} (fs : Files W) where
  -- A save is one write of the map's values.
  save-after_write :
      (entries : Entries) (w : W)
      → (
        elim (save_to_file fs entries w).0 [ ok _ ↦ ok none | err e ↦ err e ],
        (save_to_file fs entries w).1,
      )
        ≡ after_write fs (fs.write_file (fs.stringify (values entries)) w)
  unfolding save_to_file
  save-after_write entries w =
      elim (Result-cases (fs.write_file (fs.stringify (values entries)) w).0) [
        | inl (_, saved) ↦ ground (arith, saved)
        | inr (e, failed) ↦ ground (arith, failed)
      ]

  module _ (s : OracleState W) (d : Directory) (rep : Represents fs s d) where
    -- What a call should do to the map.
    abbrev Agree : Call → Result Nullable × OracleState W → Result Nullable × Directory → Type 0
    Agree c done spec =
        ((done.0, done.1.files) ≡ (
          if is_made c spec.0
          then after_write fs (fs.write_file (fs.stringify (values done.1.associations)) s.files)
          else (spec.0, s.files)))
        × Represents fs done.1 spec.1

    abbrev Implements : Call → Type 0
    Implements c = Agree c (perform fs c s) (specified c d)

    by_cases :
        (c : Call) (done : Result Nullable × OracleState W) (spec : Result Nullable × Directory)
        → perform fs c s ≡ done
        → specified c d ≡ spec
        → Agree c done spec
        → Implements c
    by_cases c done spec e e' h =
        subst (λ x. Agree c x (specified c d)) (sym e) (subst (Agree c done) (sym e') h)

    look_up-Implements : (a : Account) → Implements (look_up a)
    unfolding perform get_participant_fsp_id
    look_up-Implements a = (
      elim (Option-cases (map_get (account_key a) s.associations)) [
        | inl new ↦ ground (arith, new, rep.lists (account_key a))
        | inr (b, known) ↦ ground (arith, known, rep.lists (account_key a))
      ],
      rep,
    )

    module _ (fsp_id : Nullable) (a : Account) where
      abbrev entry : Association
      entry = association_of_party fsp_id a.party_type a.party_id a.party_sub_type a.currency

      abbrev extended : Entries
      extended = map_set (account_key a) entry s.associations

      abbrev reduced : Entries
      reduced = map_delete (account_key a) s.associations

      associate_fresh :
          map_get (account_key a) s.associations ≡ none
          → perform fs (associate fsp_id a) s ≡ (
            elim (save_to_file fs extended s.files).0 [ ok _ ↦ ok none | err e ↦ err e ],
            record { associations = extended; files = (save_to_file fs extended s.files).1 },
          )
      unfolding perform associate_participant
      associate_fresh new = ground (arith, new)

      associate_refused :
          (b : Association)
          → map_get (account_key a) s.associations ≡ some b
          → perform fs (associate fsp_id a) s ≡ (err (other "Duplicate association found"), s)
      unfolding perform
      associate_refused b known = ground (
        arith,
        associate_known fs fsp_id a.party_type a.party_id a.party_sub_type a.currency s b known,
      )

      disassociate_known :
          is_held_by fsp_id (map_get (account_key a) s.associations) ≡ true
          → perform fs (disassociate fsp_id a) s ≡ (
            elim (save_to_file fs reduced s.files).0 [ ok _ ↦ ok none | err e ↦ err e ],
            record { associations = reduced; files = (save_to_file fs reduced s.files).1 },
          )
      unfolding perform disassociate_participant
      disassociate_known held = ground (arith, held)

      disassociate_refused :
          is_held_by fsp_id (map_get (account_key a) s.associations) ≡ false
          → perform fs (disassociate fsp_id a) s ≡ (err (other "No association found"), s)
      unfolding perform
      disassociate_refused free = ground (
        arith,
        disassociate_free fs fsp_id a.party_type a.party_id a.party_sub_type a.currency s free,
      )

      associate-Implements : Implements (associate fsp_id a)
      associate-Implements = elim (Option-cases (map_get (account_key a) s.associations)) [
        | inl new ↦
            by_cases (associate fsp_id a) _ (ok none, enter (account_key a) fsp_id d)
              (associate_fresh new) (ground (arith, new, rep.lists (account_key a)))
              (
                save-after_write extended s.files,
                record {
                  keyed =
                      subst (λ k. IsKeyed (map_set k entry s.associations))
                        (key_of_party fs fsp_id a.party_type a.party_id a.party_sub_type a.currency
                          s)
                        (map_set-IsKeyed entry s.associations rep.keyed);
                  lists = λ k.
                      ground (
                        arith,
                        map_get-map_set k (account_key a) entry s.associations,
                        rep.lists k,
                      );
                },
              )
        | inr (b, known) ↦
            by_cases (associate fsp_id a) _ (err (other "Duplicate association found"), d)
              (associate_refused b known) (ground (arith, known, rep.lists (account_key a)))
              (refl, rep)
      ]

      disassociate-Implements : Implements (disassociate fsp_id a)
      disassociate-Implements =
          let same : is_listed_as fsp_id (d (account_key a))
              ≡ is_held_by fsp_id (map_get (account_key a) s.associations) =
            ap (is_listed_as fsp_id) (sym (rep.lists (account_key a)))
            ∙ listed_as_held fsp_id (map_get (account_key a) s.associations) in
          elim (Bool-cases (is_held_by fsp_id (map_get (account_key a) s.associations))) [
            | inl held ↦
                by_cases (disassociate fsp_id a) _ (ok none, leave (account_key a) d)
                  (disassociate_known held) (ground (arith, same, held))
                  (
                    save-after_write reduced s.files,
                    record {
                      keyed = map_delete-IsKeyed (account_key a) s.associations rep.keyed;
                      lists = λ k. ground (
                        arith,
                        map_get-map_delete k (account_key a) s.associations rep.keyed,
                        rep.lists k,
                      );
                    },
                  )
            | inr free ↦
                by_cases (disassociate fsp_id a) _ (err (other "No association found"), d)
                  (disassociate_refused free) (ground (arith, same, free)) (refl, rep)
          ]

  perform-Agree :
      (c : Call) (s : OracleState W) (d : Directory)
      → Represents fs s d
      → IsServed fs c s d × Represents fs (perform fs c s).1 (specified c d).1
  perform-Agree (look_up a) s d rep = look_up-Implements s d rep a
  perform-Agree (associate fsp_id a) s d rep = associate-Implements s d rep fsp_id a
  perform-Agree (disassociate fsp_id a) s d rep = disassociate-Implements s d rep fsp_id a

  -- Over any sequence of calls that do not overlap, and whatever the file system does, the
  -- well-formed map of the oracle is the directory of the specification. A change that the
  -- specification makes writes the changed map to the file, once; its call resolves if that write
  -- does, and rejects with the error of the save if the write rejects, though the change is made in
  -- memory all the same. Every other call answers as specified, and touches no file.
  pub replay-Represents :
      (cs : List Call) (s : OracleState W) (d : Directory)
      → Represents fs s d
      → AreServed fs cs s d × Represents fs (replay (perform fs) cs s).1 (replay specified cs d).1
  replay-Represents [] s d rep = (tt, rep)
  replay-Represents (c ∷ cs) s d rep =
      let (served, rep') = perform-Agree c s d rep in
      let (rest, rep'') = replay-Represents cs (perform fs c s).1 (specified c d).1 rep' in
      ((served, rest), rep'')
