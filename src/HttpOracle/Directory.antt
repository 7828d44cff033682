-- ===== src/HttpOracle/Directory.antt =====
-- What the oracle of packages/http-oracle-svc/src/remote_oracle.ts promises: a directory which has
-- at most one FSP for each key, and that its map, over any sequence of calls, is such a directory.
pub mod Refinement
use account_lookup_bc.Prelude.{
  String, Option, none, some, Bool, true, false, List, [], ◌∷◌, Bool-cases, Option-cases, ◌==◌,
  if◌then◌else◌, nullable_eq, ◌≡◌, refl, sym, subst, ap, ◌∙◌, ◌⊎◌, inl, inr, arith,
}
use account_lookup_bc.Effect.{Result, ok, err, Result-cases, Action, pure, ◌>>◌, other}
use account_lookup_bc.Types.{Nullable, Association}
use account_lookup_bc.HttpOracle.{
  Entries, values, map_get, map_set, map_delete, Files, OracleState, party_key,
  association_of_party, is_held_by, save_to_file, get_participant_fsp_id, associate_participant,
  disassociate_participant,
}
use account_lookup_bc.HttpOracle.Table.{
  IsKeyed, map_get-map_set, map_get-map_delete, map_set-IsKeyed, map_delete-IsKeyed,
}
use account_lookup_bc.HttpOracle.Outcomes.{key_of_party, associate_known, disassociate_free}

pub record Account : Type 0 where
  pub party_type : Nullable
  pub party_id : Nullable
  pub party_sub_type : Nullable
  pub currency : Nullable

pub data Call : Type 0 where
  look_up : Account → Call
  associate disassociate : Nullable → Account → Call

-- The FSP of each key.
abbrev pub Directory : Type 0
Directory = String → Option Nullable

abbrev pub enter : String → Nullable → Directory → Directory
enter k fsp_id d j = if k == j then some fsp_id else d j

abbrev pub leave : String → Directory → Directory
leave k d j = if k == j then none else d j

abbrev pub listed_fsp_id : Option Nullable → Nullable
listed_fsp_id none = none
listed_fsp_id (some fsp_id) = fsp_id

abbrev pub account_key : Account → String
account_key a = party_key a.party_type a.party_id a.party_sub_type a.currency

abbrev pub is_listed_as : Nullable → Option Nullable → Bool
is_listed_as fsp_id none = false
is_listed_as fsp_id (some v) = nullable_eq v fsp_id

-- What a call should answer, and the directory after it.
abbrev pub specified : Call → Directory → Result Nullable × Directory
specified (look_up a) d = (ok (listed_fsp_id (d (account_key a))), d)
specified (associate fsp_id a) d = elim (d (account_key a)) [
  | some _ ↦ (err (other "Duplicate association found"), d)
  | none ↦ (ok none, enter (account_key a) fsp_id d)
]
specified (disassociate fsp_id a) d =
    if is_listed_as fsp_id (d (account_key a))
    then (ok none, leave (account_key a) d)
    else (err (other "No association found"), d)

-- The calls, one after the other, with their answers in order.
abbrev pub replay :
    {S : Type 0} → (Call → S → Result Nullable × S) → List Call → S → List (Result Nullable) × S
replay step [] s = ([], s)
replay step (c ∷ rest) s =
    let (r, s') = step c s in let (rs, s'') = replay step rest s' in (r ∷ rs, s'')

-- The directory that a map stands for.
abbrev pub fsp_of_entry : Option Association → Option Nullable
fsp_of_entry none = none
fsp_of_entry (some a) = some a.fsp_id

abbrev pub directory_of : Entries → Directory
directory_of entries k = fsp_of_entry (map_get k entries)

abbrev pub is_change : Call → Bool
is_change (look_up _) = false
is_change _ = true

-- Whether the specified call changes the directory.
abbrev pub is_made : Call → Result Nullable → Bool
is_made c (ok _) = is_change c
is_made c (err _) = false

pub listed_as_held :
    (fsp_id : Nullable) (o : Option Association)
    → is_listed_as fsp_id (fsp_of_entry o) ≡ is_held_by fsp_id o
listed_as_held fsp_id none = refl
listed_as_held fsp_id (some a) = refl

module _ {W : Type 0} (fs : Files W) where
  unfoldable pub perform : Call → Action (OracleState W) Nullable
  perform (look_up a) =
      get_participant_fsp_id fs a.party_type a.party_id a.party_sub_type a.currency
  perform (associate fsp_id a) =
      associate_participant fs fsp_id a.party_type a.party_id a.party_sub_type a.currency
      >> pure none
  perform (disassociate fsp_id a) =
      disassociate_participant fs fsp_id a.party_type a.party_id a.party_sub_type a.currency
      >> pure none

  -- The map is well-formed, and stands for the directory.
  pub record Represents (s : OracleState W) (d : Directory) : Type 0 where
    pub keyed : IsKeyed s.associations
    pub lists : (k : String) → directory_of s.associations k ≡ d k

  -- How a write of the file ends a call.
  abbrev pub after_write : Result (Unit {0}) × W → Result Nullable × W
  after_write (ok _, w) = (ok none, w)
  after_write (err _, w) = (err (other "Failed to save associations"), w)

  -- The answer of a call and the files after it: where the specification makes a change, those of
  -- one write of the changed map; and else the specified answer, without touching the files.
  abbrev pub IsServed : Call → OracleState W → Directory → Type 0
  IsServed c s d =
      let (r, s') = perform c s in
      (r, s'.files) ≡ (
        if is_made c (specified c d).0
        then after_write (fs.write_file (fs.stringify (values s'.associations)) s.files)
        else ((specified c d).0, s.files))

  -- The calls of a sequence, each served in the state and the directory that those before it left.
  abbrev pub AreServed : List Call → OracleState W → Directory → Type 0
  AreServed [] s d = Unit {0}
  AreServed (c ∷ cs) s d = IsServed c s d × AreServed cs (perform c s).1 (specified c d).1
