-- ===== src/HttpOracle/Table.antt =====
-- The map of packages/http-oracle-svc/src/remote_oracle.ts, and writing it to a file and back.
use mathlib.Core.List.{append-nil, append_assoc}
use account_lookup_bc.Prelude.{
  String, none, some, List, [], ◌∷◌, ◌++◌, ◌==◌, if◌then◌else◌, ◌≡◌, refl, Bool, true, false, sym,
  ap, subst, ◌∙◌, ◌≢◌, ◌⊎◌, arith, eq_iff, Option-cases, Bool-cases, inl, inr,
}
use account_lookup_bc.Types.{Association}
use account_lookup_bc.HttpOracle.{
  Entries, map_get, map_set, map_delete, values, create_key, load_records,
}

-- Every entry stands under the key of its association, and no key occurs twice.
abbrev pub IsKeyed : Entries → Type 0
IsKeyed [] = Unit
IsKeyed ((k, a) ∷ rest) = (k ≡ create_key a) × (map_get k rest ≡ none) × IsKeyed rest

pub map_get-map_set :
    (j k : String) (a : Association) (m : Entries)
    → map_get j (map_set k a m) ≡ (if k == j then some a else map_get j m)
map_get-map_set j k a [] = refl
map_get-map_set j k a ((i, b) ∷ m) =
    ground (arith, map_get-map_set j k a m, eq_iff i k, eq_iff i j, eq_iff k j)

map_get-map_delete_other :
    (j k : String) (m : Entries) → k ≢ j → map_get j (map_delete k m) ≡ map_get j m
map_get-map_delete_other j k [] ne = refl
map_get-map_delete_other j k ((i, b) ∷ m) ne =
    ground (arith, map_get-map_delete_other j k m ne, eq_iff i k, eq_iff i j)

map_get-map_delete_same : (k : String) (m : Entries) → IsKeyed m → map_get k (map_delete k m) ≡ none
map_get-map_delete_same k [] h = refl
map_get-map_delete_same k ((i, b) ∷ m) (own, once, rest) =
    ground (arith, map_get-map_delete_same k m rest, eq_iff i k)

pub map_get-map_delete :
    (j k : String) (m : Entries)
    → IsKeyed m
    → map_get j (map_delete k m) ≡ (if k == j then none else map_get j m)
map_get-map_delete j k m h =
    ground (arith, map_get-map_delete_other j k m, map_get-map_delete_same k m h, eq_iff k j)

if_holds {ℓ} :
    {A : Type ℓ} (P : A → Type 0) (b : Bool) (x y : A)
    → (b ≡ true → P x)
    → (b ≡ false → P y)
    → P (if b then x else y)
if_holds P true x y first second = first refl
if_holds P false x y first second = second refl

pub map_set-IsKeyed :
    (a : Association) (m : Entries) → IsKeyed m → IsKeyed (map_set (create_key a) a m)
map_set-IsKeyed a [] h = (refl, refl, tt)
map_set-IsKeyed a ((i, b) ∷ m) (own, once, rest) =
    if_holds IsKeyed (i == create_key a) ((i, a) ∷ m) ((i, b) ∷ map_set (create_key a) a m)
      (λ same. ((eq_iff i (create_key a)).0 same, once, rest))
      (λ new. (
        own,
        ground (
          arith,
          map_get-map_set i (create_key a) a m,
          eq_iff i (create_key a),
          eq_iff (create_key a) i,
        ),
        map_set-IsKeyed a m rest,
      ))

pub map_delete-IsKeyed : (k : String) (m : Entries) → IsKeyed m → IsKeyed (map_delete k m)
map_delete-IsKeyed k [] h = tt
map_delete-IsKeyed k ((i, b) ∷ m) (own, once, rest) =
    if_holds IsKeyed (i == k) m ((i, b) ∷ map_delete k m) (λ same. rest)
      (λ left. (
        own,
        ground (arith, map_get-map_delete i k m rest, eq_iff i k, eq_iff k i),
        map_delete-IsKeyed k m rest,
      ))

load_records_nil : (m : Entries) → load_records [] m ≡ m
unfolding load_records
load_records_nil m = refl

load_records_known :
    (a b : Association) (l : List Association) (m : Entries)
    → map_get (create_key a) m ≡ some b
    → load_records (a ∷ l) m ≡ load_records l m
unfolding load_records
load_records_known a b l m known = ground (arith, known)

load_records_new :
    (a : Association) (l : List Association) (m : Entries)
    → map_get (create_key a) m ≡ none
    → load_records (a ∷ l) m ≡ load_records l (map_set (create_key a) a m)
unfolding load_records
load_records_new a l m new = ground (arith, new)

pub load_records-IsKeyed :
    (l : List Association) (m : Entries) → IsKeyed m → IsKeyed (load_records l m)
load_records-IsKeyed [] m h = subst IsKeyed (sym (load_records_nil m)) h
load_records-IsKeyed (a ∷ l) m h = elim (Option-cases (map_get (create_key a) m)) [
  | inl new ↦
      subst IsKeyed (sym (load_records_new a l m new))
        (load_records-IsKeyed l (map_set (create_key a) a m) (map_set-IsKeyed a m h))
  | inr (b, known) ↦
      subst IsKeyed (sym (load_records_known a b l m known)) (load_records-IsKeyed l m h)
]

map_set_new :
    (k : String) (a : Association) (m : Entries)
    → map_get k m ≡ none
    → map_set k a m ≡ m ++ (k, a) ∷ []
map_set_new k a [] new = refl
map_set_new k a ((i, b) ∷ m) new = ground (arith, map_set_new k a m, eq_iff i k)

-- No key of the second map is one of the first.
abbrev IsApart : Entries → Entries → Type 0
IsApart m n = (k : String) → (map_get k m ≡ none) ⊎ (map_get k n ≡ none)

append-IsApart :
    (k : String) (a : Association) (m n : Entries)
    → map_get k m ≡ none
    → map_get k n ≡ none
    → IsApart ((k, a) ∷ n) m
    → IsApart n (m ++ (k, a) ∷ [])
append-IsApart k a m n new once apart = λ j. elim (Bool-cases (k == j)) [
  | inl same ↦ inl (ground (arith, once, eq_iff k j))
  | inr differ ↦ elim (apart j) [
    | inl gone ↦ inl (ground (arith, gone, differ))
    | inr gone ↦ inr (
        ap (map_get j) (sym (map_set_new k a m new))
        ∙ map_get-map_set j k a m
        ∙ ground (arith, differ, gone))
  ]
]

load_records_append : (m n : Entries) → IsKeyed n → IsApart n m → load_records (values n) m ≡ m ++ n
load_records_append m [] keyed apart = load_records_nil m ∙ sym (append-nil m)
load_records_append m ((k, a) ∷ n) (own, once, rest) apart =
    let new : map_get k m ≡ none = elim (apart k) [
      | inl gone ↦ ground (arith, gone, eq_iff k k)
      | inr new ↦ new
    ] in
    let new' : map_get (create_key a) m ≡ none = ground (arith, new, own) in
    load_records_new a (values n) m new'
    ∙ ap (load_records (values n)) (ap (λ j. map_set j a m) (sym own) ∙ map_set_new k a m new)
    ∙ load_records_append (m ++ (k, a) ∷ []) n rest (append-IsApart k a m n new once apart)
    ∙ append_assoc m ((k, a) ∷ []) n

-- What a well-formed map writes to its file is read back as the same map, entry for entry.
pub load_records-values : (m : Entries) → IsKeyed m → load_records (values m) [] ≡ m
load_records-values m keyed = load_records_append [] m keyed (λ k. inr refl)
