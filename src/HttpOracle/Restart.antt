-- ===== src/HttpOracle/Restart.antt =====
-- Starting the oracle of packages/http-oracle-svc/src/remote_oracle.ts again from its file.
use account_lookup_bc.Prelude.{
  String, Option, some, Bool, true, false, List, [], ◌≡◌, sym, ap, subst, ◌∙◌, ◌≢◌, arith, eq_iff,
  inl, inr, is_some,
}
use account_lookup_bc.Effect.{Error, ok, err, Result-cases}
use account_lookup_bc.Types.{Nullable, Association}
use account_lookup_bc.HttpOracle.{
  Entries, Files, OracleState, values, load_records, records_of, read_records, load_from_file, init,
  save_to_file, associate_participant,
}
use account_lookup_bc.HttpOracle.Table.{IsKeyed, load_records-IsKeyed, load_records-values}
use account_lookup_bc.HttpOracle.Outcomes.{associate_resolved, associate_participant-IsKeyed}

-- The documented behaviour of the file system and of JSON, for the calls that resolve: `content` is
-- the text of the file, if there is one.
pub record FilesLaws {W : Type 0} (fs : Files W) : Type 0 where
  pub content : W → Option String
  pub exists_law :
      (b : Bool) (w w' : W)
      → fs.exists_sync w ≡ (ok b, w')
      → (b ≡ is_some (content w)) × (content w' ≡ content w)
  pub read_law :
      (text : String) (w w' : W)
      → fs.read_file w ≡ (ok text, w')
      → (content w ≡ some text) × (content w' ≡ content w)
  pub write_law :
      (text : String) (w w' : W) → fs.write_file text w ≡ (ok tt, w') → content w' ≡ some text
  pub json_law : (l : List Association) → fs.parse (fs.stringify l) ≡ ok (some l)
  pub json_nonempty : (l : List Association) → fs.stringify l ≢ ""

module _ {W : Type 0} (fs : Files W) where
  module _ (s s' : OracleState W) where
    load_from_file_resolved :
        load_from_file fs s ≡ (ok tt, s')
        → (found : Option (List Association)) × ((read_records fs s.files).0 ≡ ok found)
          × (s'.associations ≡ load_records (records_of found) [])
    unfolding load_from_file
    load_from_file_resolved h = elim (Result-cases (read_records fs s.files).0) [
      | inl (found, read) ↦ (found, read, ground (arith, read))
      | inr (e, failed) ↦ ground (arith, failed)
    ]

  module _ (s : OracleState W) where
    load_from_file_read :
        (found : Option (List Association))
        → (read_records fs s.files).0 ≡ ok found
        → (load_from_file fs s).1.associations ≡ load_records (records_of found) []
    unfolding load_from_file
    load_from_file_read found read = ground (arith, read)

    load_from_file_failed :
        (e : Error)
        → (read_records fs s.files).0 ≡ err e
        → (load_from_file fs s).1.associations ≡ []
    unfolding load_from_file
    load_from_file_failed e failed = ground (arith, failed)

    init_there :
        (fs.exists_sync s.files).0 ≡ ok true
        → (init fs s).1.associations
          ≡ (load_from_file fs (record s { files = (fs.exists_sync s.files).1 })).1.associations
    unfolding init
    init_there there = ground (arith, there)

    init_missing :
        (fs.exists_sync s.files).0 ≡ ok false → (init fs s).1.associations ≡ s.associations
    unfolding init
    init_missing missing = ground (arith, missing)

    init_failed :
        (e : Error)
        → (fs.exists_sync s.files).0 ≡ err e
        → (init fs s).1.associations ≡ s.associations
    unfolding init
    init_failed e failed = ground (arith, failed)

  load_from_file-IsKeyed : (s : OracleState W) → IsKeyed (load_from_file fs s).1.associations
  load_from_file-IsKeyed s = elim (Result-cases (read_records fs s.files).0) [
    | inl (found, read) ↦
        subst IsKeyed (sym (load_from_file_read s found read))
          (load_records-IsKeyed (records_of found) [] tt)
    | inr (e, failed) ↦ subst IsKeyed (sym (load_from_file_failed s e failed)) tt
  ]

  -- However it ends, the start of the oracle on a well-formed map leaves a well-formed map, also
  -- where the file holds records with the same key, or cannot be read.
  pub init-IsKeyed :
      (s : OracleState W) → IsKeyed s.associations → IsKeyed (init fs s).1.associations
  init-IsKeyed s keyed = elim (Result-cases (fs.exists_sync s.files).0) [
    | inl (true, there) ↦
        subst IsKeyed (sym (init_there s there))
          (load_from_file-IsKeyed (record s { files = (fs.exists_sync s.files).1 }))
    | inl (false, missing) ↦ subst IsKeyed (sym (init_missing s missing)) keyed
    | inr (e, failed) ↦ subst IsKeyed (sym (init_failed s e failed)) keyed
  ]

  module _ (laws : FilesLaws fs) where
    open laws use {content, exists_law, read_law, write_law, json_law, json_nonempty}

    -- The file of `w` holds what `save_to_file` writes for these entries.
    abbrev IsSaved : Entries → W → Type 0
    IsSaved entries w = content w ≡ some (fs.stringify (values entries))

    save_to_file-IsSaved :
        (entries : Entries) (w w' : W)
        → save_to_file fs entries w ≡ (ok tt, w')
        → IsSaved entries w'
    unfolding save_to_file
    save_to_file-IsSaved entries w w' h =
        write_law (fs.stringify (values entries)) w w' (ground arith)

    read_records_saved :
        (entries : Entries) (found : Option (List Association)) (w : W)
        → IsSaved entries w
        → (read_records fs w).0 ≡ ok found
        → found ≡ some (values entries)
    unfolding read_records
    read_records_saved entries found w saved h = elim (Result-cases (fs.read_file w).0) [
      | inl (text, read) ↦
          let (is, same) = read_law text w (fs.read_file w).1 (ground arith) in
          ground (
            arith,
            read,
            is,
            saved,
            json_law (values entries),
            json_nonempty (values entries),
            eq_iff text "",
          )
      | inr (e, failed) ↦ ground (arith, failed)
    ]

    init_saved :
        (entries : Entries) (s s' : OracleState W)
        → IsKeyed entries
        → IsSaved entries s.files
        → init fs s ≡ (ok tt, s')
        → s'.associations ≡ entries
    unfolding init
    init_saved entries s s' keyed saved h = elim (Result-cases (fs.exists_sync s.files).0) [
      | inl (b, tested) ↦
          let (is, same) = exists_law b s.files (fs.exists_sync s.files).1 (ground arith) in
          let there : b ≡ true = ground (arith, is, saved) in
          let opened : OracleState W = record s { files = (fs.exists_sync s.files).1 } in
          let (found, read, loaded) = load_from_file_resolved opened s' (ground arith) in
          let given =
            read_records_saved entries found opened.files (ground (arith, same, saved)) read in
          loaded
          ∙ ap (λ o. load_records (records_of o) []) given
          ∙ load_records-values entries keyed
      | inr (e, failed) ↦ ground (arith, failed)
    ]

    -- Restart: where the file system and JSON behave as documented, after an association that
    -- resolves on a well-formed map, a start of the oracle that resolves on the file that is left,
    -- whatever it had in memory, gives the map that was in memory.
    pub init-associate_participant :
        (fsp_id party_type party_id party_sub_type currency : Nullable) (s s₁ s₂ s₃ : OracleState W)
        → IsKeyed s.associations
        → associate_participant fs fsp_id party_type party_id party_sub_type currency s
          ≡ (ok tt, s₁)
        → s₂.files ≡ s₁.files
        → init fs s₂ ≡ (ok tt, s₃)
        → s₃.associations ≡ s₁.associations
    init-associate_participant fsp_id party_type party_id party_sub_type currency s s₁ s₂ s₃ keyed
          associated same started =
        let (new, (changed, saved)) =
          associate_resolved fs fsp_id party_type party_id party_sub_type currency s s₁
            associated in
        init_saved s₁.associations s₂ s₃
          (subst (λ o. IsKeyed o.1.associations) associated
            (associate_participant-IsKeyed fs fsp_id party_type party_id party_sub_type currency s
              keyed))
          (ground (
            arith,
            same,
            changed,
            save_to_file-IsSaved s₁.associations s.files s₁.files (ground (arith, changed, saved)),
          ))
          started
