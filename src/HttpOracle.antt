-- ===== src/HttpOracle.antt =====
-- The oracle of packages/http-oracle-svc/src/remote_oracle.ts (the class `RemoteOracle`), which
-- keeps its associations in a map and in a file.
pub mod Table
pub mod Outcomes
pub mod Restart
pub mod Directory
pub mod Server
pub mod Mounted
pub mod Replies
pub mod Process
pub mod Overlap
use account_lookup_bc.Prelude.{
  String, Option, none, some, Bool, true, false, List, [], ◌∷◌, ◌++◌, map, filter, not, ◌==◌,
  if◌then◌else◌, shown, ◌<>◌, nullable_eq,
}
use account_lookup_bc.Effect.{
  Result, ok, err, Action, pure, throw, or_throw, guard, ◌>>=◌, ◌>>◌, other,
}
use account_lookup_bc.Types.{Nullable, Association}

-- A JavaScript `Map`: the entries in the order in which their keys were first set.
abbrev pub Entries : Type 0
Entries = List (String × Association)

abbrev pub map_get : String → Entries → Option Association
map_get k [] = none
map_get k ((j, a) ∷ rest) = if j == k then some a else map_get k rest

abbrev pub map_set : String → Association → Entries → Entries
map_set k a [] = (k, a) ∷ []
map_set k a ((j, b) ∷ rest) = if j == k then (j, a) ∷ rest else (j, b) ∷ map_set k a rest

abbrev pub map_delete : String → Entries → Entries
map_delete k [] = []
map_delete k ((j, b) ∷ rest) = if j == k then rest else (j, b) ∷ map_delete k rest

abbrev pub values : Entries → List Association
values entries = map (λ e. e.1) entries

-- The file system and JSON. `parse` gives the array `associations` of the file's object, if it has
-- one; it throws where `JSON.parse` does, or where the text is no object.
pub record Files (W : Type 0) : Type 0 where
  pub exists_sync : Action W Bool
  pub read_file : Action W String
  pub write_file : String → Action W (Unit {0})
  pub parse : String → Result (Option (List Association))
  pub stringify : List Association → String

-- `_associations`, and the world outside
pub record OracleState (W : Type 0) : Type 0 where
  pub associations : Entries
  pub files : W

-- `checkNull`
abbrev check_null : Nullable → String
check_null none = "NULL"
check_null (some s) = s

-- `createKey`, which leaves the sub type out
unfoldable pub create_key : Association → String
create_key a = shown a.party_id <> "-" <> shown a.party_type <> "-" <> check_null a.currency

-- The loop of `_loadFromFile`: the first record of a key wins.
unfoldable pub load_records : List Association → Entries → Entries
load_records [] entries = entries
load_records (a ∷ rest) entries = elim (map_get (create_key a) entries) [
  | some _ ↦ load_records rest entries
  | none ↦ load_records rest (map_set (create_key a) a entries)
]

abbrev pub association_of_party : Nullable → Nullable → Nullable → Nullable → Nullable → Association
association_of_party fsp_id party_type party_id party_sub_type currency = record {
  fsp_id = fsp_id;
  party_type = party_type;
  party_id = party_id;
  party_sub_type = party_sub_type;
  currency = currency;
}

abbrev pub party_key : Nullable → Nullable → Nullable → Nullable → String
party_key party_type party_id party_sub_type currency =
    create_key (association_of_party none party_type party_id party_sub_type currency)

-- `association && association.fspId===fspId`
abbrev pub is_held_by : Nullable → Option Association → Bool
is_held_by fsp_id none = false
is_held_by fsp_id (some a) = nullable_eq a.fsp_id fsp_id

abbrev pub records_of : Option (List Association) → List Association
records_of none = []
records_of (some l) = l

module _ {W : Type 0} (fs : Files W) where
  abbrev pub on_files : {A : Type 0} → Action W A → Action (OracleState W) A
  on_files m s = let (r, w) = m s.files in (r, record s { files = w })

  abbrev read_entries : Action (OracleState W) Entries
  read_entries s = (ok s.associations, s)

  abbrev write_entries : Entries → Action (OracleState W) (Unit {0})
  write_entries entries s = (ok tt, record s { associations = entries })

  abbrev parsed : Result (Option (List Association)) → Action W (Option (List Association))
  parsed r w = (r, w)

  -- The contents of the file, if it has any.
  unfoldable pub read_records : Action W (Option (List Association))
  read_records = do
    contents ← fs.read_file
    if contents == "" then pure none else parsed (fs.parse contents)

  -- `_loadFromFile`
  unfoldable pub load_from_file : Action (OracleState W) (Unit {0})
  load_from_file = do
    write_entries []
    found ← on_files (or_throw read_records (other "Failed to load associations"))
    write_entries (load_records (records_of found) [])

  -- `init`
  unfoldable pub init : Action (OracleState W) (Unit {0})
  init = do exists ← on_files fs.exists_sync; if exists then load_from_file else pure tt

  -- `_saveToFile`, with the write landed when it resolves: calls run one after the other here, and
  -- HttpOracle/Overlap has those that overlap
  unfoldable pub save_to_file : Entries → Action W (Unit {0})
  save_to_file entries =
      or_throw (fs.write_file (fs.stringify (values entries))) (other "Failed to save associations")

  abbrev fsp_id_of_entry : Option Association → Nullable
  fsp_id_of_entry none = none
  fsp_id_of_entry (some a) = a.fsp_id

  -- `getParticipantFspId`
  unfoldable pub get_participant_fsp_id :
      Nullable → Nullable → Nullable → Nullable → Action (OracleState W) Nullable
  get_participant_fsp_id party_type party_id party_sub_type currency = do
    entries ← read_entries
    pure (fsp_id_of_entry (map_get (party_key party_type party_id party_sub_type currency) entries))

  -- `associateParticipant`
  unfoldable pub associate_participant :
      Nullable → Nullable → Nullable → Nullable → Nullable → Action (OracleState W) (Unit {0})
  associate_participant fsp_id party_type party_id party_sub_type currency = do
    entries ← read_entries
    elim (map_get (party_key party_type party_id party_sub_type currency) entries) [
      | some _ ↦ throw (other "Duplicate association found")
      | none ↦
          let extended =
            map_set (party_key party_type party_id party_sub_type currency)
              (association_of_party fsp_id party_type party_id party_sub_type currency) entries in
          write_entries extended >> on_files (save_to_file extended)
    ]

  -- `disassociateParticipant`
  unfoldable pub disassociate_participant :
      Nullable → Nullable → Nullable → Nullable → Nullable → Action (OracleState W) (Unit {0})
  disassociate_participant fsp_id party_type party_id party_sub_type currency = do
    entries ← read_entries
    guard
        (is_held_by fsp_id
          (map_get (party_key party_type party_id party_sub_type currency) entries))
        (other "No association found")
    write_entries (map_delete (party_key party_type party_id party_sub_type currency) entries)
    on_files
        (save_to_file (map_delete (party_key party_type party_id party_sub_type currency) entries))

  -- `healthCheck`
  unfoldable pub health_check : Action (OracleState W) Bool
  health_check = pure true

  -- `destroy`
  unfoldable pub destroy : Action (OracleState W) (Unit {0})
  destroy = pure tt
