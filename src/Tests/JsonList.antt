-- ===== src/Tests/JsonList.antt =====
-- A text form of lists of associations that can be read back, for the runs on a file.
use account_lookup_bc.Prelude.{String, ℕ, zero, suc, List, [], ◌∷◌, length, ◌≡◌, ◌≢◌, refl, ap, ◌∙◌}
use account_lookup_bc.Types.{Association}
use account_lookup_bc.Tests.Marks.{
  write_nullable, read_nullable, read_nullable-write_nullable, write_count, read_count,
  read_count-write_count, write_count-nonempty,
}

abbrev write_association : Association → String → String
write_association a rest = write_nullable a.fsp_id (
    write_nullable a.party_type (
      write_nullable a.party_id (write_nullable a.party_sub_type (write_nullable a.currency rest))))

abbrev read_association : String → Association × String
read_association text =
    let (fsp_id, r₁) = read_nullable text in
    let (party_type, r₂) = read_nullable r₁ in
    let (party_id, r₃) = read_nullable r₂ in
    let (party_sub_type, r₄) = read_nullable r₃ in
    let (currency, r₅) = read_nullable r₄ in
    (
      record {
        fsp_id = fsp_id;
        party_type = party_type;
        party_id = party_id;
        party_sub_type = party_sub_type;
        currency = currency;
      },
      r₅,
    )

read_association-write_association :
    (a : Association) (rest : String) → read_association (write_association a rest) ≡ (a, rest)
read_association-write_association a rest = simp read_nullable-write_nullable

abbrev write_items : List Association → String
write_items [] = ""
write_items (a ∷ l) = write_association a (write_items l)

abbrev read_items : ℕ → String → List Association
read_items zero text = []
read_items (suc n) text = let (a, rest) = read_association text in a ∷ read_items n rest

read_items-write_items : (l : List Association) → read_items (length l) (write_items l) ≡ l
read_items-write_items [] = refl
read_items-write_items (a ∷ l) =
    ap (λ o. o.0 ∷ read_items (length l) o.1) (read_association-write_association a (write_items l))
    ∙ ap (λ r. a ∷ r) (read_items-write_items l)

abbrev pub write_list : List Association → String
write_list l = write_count (length l) (write_items l)

abbrev pub read_list : String → List Association
read_list text = let (n, rest) = read_count text in read_items n rest

pub read_list-write_list : (l : List Association) → read_list (write_list l) ≡ l
read_list-write_list l =
    ap (λ o. read_items o.0 o.1) (read_count-write_count (length l) (write_items l))
    ∙ read_items-write_items l

pub write_list-nonempty : (l : List Association) → write_list l ≢ ""
write_list-nonempty l = write_count-nonempty (length l) (write_items l)
