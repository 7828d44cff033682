-- ===== src/Tests/Finder.antt =====
-- The finder on a collection in memory.
use account_lookup_bc.Prelude.{
  String, ℕ, Option, some, List, [], ◌∷◌, ◌++◌, find, filter, nullable_eq, ◌≡◌, refl, sym, ap,
  arith,
}
use account_lookup_bc.Effect.{ok}
use account_lookup_bc.Types.{Oracle}
use account_lookup_bc.Implementations.Finder.{
  OracleDocument, OracleFilter, by_id, OracleCollection, map_to_oracle, get_oracle,
}
use account_lookup_bc.Implementations.Finder.Choice.{preferred, get_oracle-preferred_iff}
use account_lookup_bc.Implementations.Finder.Stored.{
  selects, without_first, count_of, CollectionLaws,
}
use account_lookup_bc.Tests.World.{builtin_oracle, second_oracle}

abbrev document_of : Oracle → OracleDocument
document_of o = record {
  id = o.id;
  name = o.name;
  oracle_type = o.oracle_type;
  party_type = o.party_type;
  currency = some o.currency;
  endpoint = o.endpoint;
}

abbrev collection : OracleCollection (List OracleDocument)
collection = record {
  connect = λ w. (ok tt, w);
  close = λ w. (ok tt, w);
  find_one = λ f w. (ok (find (selects f) w), w);
  find_all = λ w. (ok w, w);
  find_by_party_type =
      λ party_type w. (ok (filter (λ d. nullable_eq d.party_type party_type) w), w);
  insert_one = λ o w. (ok tt, w ++ document_of o ∷ []);
  delete_one = λ id w. (ok (count_of (find (selects (by_id id)) w)), without_first id w);
}

found :
    (f : OracleFilter) (r : Option OracleDocument) (w w' : List OracleDocument)
    → collection.find_one f w ≡ (ok r, w')
    → (r ≡ find (selects f) w) × (w' ≡ w)
found f r w w' h = (ground arith, ground arith)

counted :
    (id : String) (n : ℕ) (w w' : List OracleDocument)
    → collection.delete_one id w ≡ (ok n, w')
    → (n ≡ count_of (find (selects (by_id id)) w)) × (w' ≡ without_first id w)
counted id n w w' h = (ground arith, ground arith)

abbrev collection_laws : CollectionLaws collection
collection_laws = record {
  docs = λ w. w;
  find_one_law = λ f r w w' h. found f r w w' h;
  insert_one_law = λ o w w' h. (document_of o, refl, sym (ap (λ x. x.1) h));
  delete_one_law = λ id n w w' h. counted id n w w' h;
}

abbrev both : List OracleDocument
both = document_of builtin_oracle ∷ document_of second_oracle ∷ []

-- An oracle for euros, behind one for the same party type without a currency.
abbrev euro_oracle : Oracle
euro_oracle = record builtin_oracle { id = "o3"; currency = some "EUR" }

abbrev priced : List OracleDocument
priced = document_of builtin_oracle ∷ document_of euro_oracle ∷ []

get_oracle-preferred_iff_example :
    (l : List OracleDocument) × (d : OracleDocument) × (collection.find_by_party_type
        (some "MSISDN")
        priced
      ≡ (ok l, priced))
    × (preferred (some (some "EUR")) l ≡ some d)
    × (euro_oracle ≡ map_to_oracle d)
unfolding get_oracle
get_oracle-preferred_iff_example =
    (get_oracle-preferred_iff collection (some "MSISDN") (some (some "EUR")) priced priced
        euro_oracle).0
      refl
