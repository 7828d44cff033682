-- ===== src/Tests/HttpOracle.antt =====
-- The oracle of the HTTP oracle service, on a file in memory.
use account_lookup_bc.Prelude.{
  String, Option, none, some, Bool, [], ◌∷◌, is_some, ◌≡◌, refl, sym, ap, arith,
}
use account_lookup_bc.Effect.{Result, ok, err, other}
use account_lookup_bc.Types.{Nullable}
use account_lookup_bc.HttpOracle.{
  Files, OracleState, create_key, associate_participant, disassociate_participant,
}
use account_lookup_bc.HttpOracle.Table.{IsKeyed}
use account_lookup_bc.HttpOracle.Restart.{FilesLaws}
use account_lookup_bc.Tests.World.{association_of}
use account_lookup_bc.Tests.JsonList.{
  write_list, read_list, read_list-write_list, write_list-nonempty,
}

abbrev pub text_of : Option String → Result String
text_of none = err (other "ENOENT")
text_of (some text) = ok text

-- The state is the file's text, if there is a file.
abbrev pub disk : Files (Option String)
disk = record {
  exists_sync = λ w. (ok (is_some w), w);
  read_file = λ w. (text_of w, w);
  write_file = λ text w. (ok tt, some text);
  parse = λ text. ok (some (read_list text));
  stringify = write_list;
}

pub exists_disk :
    (b : Bool) (w w' : Option String) → disk.exists_sync w ≡ (ok b, w') → (b ≡ is_some w) × (w' ≡ w)
exists_disk b w w' h = (ground arith, ground arith)

pub read_disk :
    (text : String) (w w' : Option String)
    → disk.read_file w ≡ (ok text, w')
    → (w ≡ some text) × (w' ≡ w)
read_disk text none w' h = ground arith
read_disk text (some t) w' h = (ground arith, ground arith)

abbrev pub disk_laws : FilesLaws disk
disk_laws = record {
  content = λ w. w;
  exists_law = λ b w w' h. exists_disk b w w' h;
  read_law = λ text w w' h. read_disk text w w' h;
  write_law = λ text w w' h. sym (ap (λ o. o.1) h);
  json_law = λ l. ap (λ x. ok (some x)) (read_list-write_list l);
  json_nonempty = write_list-nonempty;
}

abbrev pub empty : OracleState (Option String)
empty = record { associations = []; files = none }

abbrev pub associate :
    Nullable → OracleState (Option String) → Result (Unit {0}) × OracleState (Option String)
associate sub_type s =
    associate_participant disk (some "payee") (some "MSISDN") (some "123") sub_type none s

abbrev pub after : OracleState (Option String)
after = (associate none empty).1

abbrev removed : OracleState (Option String)
removed =
    (disassociate_participant disk (some "payee") (some "MSISDN") (some "123") none none after).1

pub after-IsKeyed : IsKeyed after.associations
unfolding associate_participant create_key
after-IsKeyed = (refl, refl, tt)

-- A file with the same record twice.
abbrev twice : OracleState (Option String)
twice = record {
  associations = [];
  files = some (write_list (association_of "payee" ∷ association_of "payee" ∷ []));
}
