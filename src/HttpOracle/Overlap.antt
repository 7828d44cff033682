-- ===== src/HttpOracle/Overlap.antt =====
-- Saves of the oracle of packages/http-oracle-svc/src/remote_oracle.ts that are in flight together:
-- `_saveToFile` hands the text to `writeFile` and awaits it, and other calls run meanwhile.
use account_lookup_bc.Prelude.{
  String, Option, none, some, List, [], ◌∷◌, ◌++◌, ℕ, zero, suc, is_some, ◌≡◌, ◌≢◌, sym, ap, ◌∙◌,
  arith, eq_iff, get_elem?,
}
use account_lookup_bc.Effect.{Result, ok, err, other}
use account_lookup_bc.Types.{Nullable, Association}
use account_lookup_bc.HttpOracle.{
  Entries, Files, OracleState, values, create_key, map_get, map_set, association_of_party,
  save_to_file, read_records, load_from_file, associate_participant, init,
}
use account_lookup_bc.HttpOracle.Table.{
  IsKeyed, map_get-map_set, map_set-IsKeyed, load_records-values,
}
use account_lookup_bc.HttpOracle.Directory.{Account, account_key}

-- The file, and the texts that have been handed to `writeFile` and are not written yet.
pub record Disk : Type 0 where
  pub file : Option String
  pub pending : List String

abbrev remove_at : ℕ → List String → List String
remove_at n [] = []
remove_at zero (t ∷ l) = l
remove_at (suc n) (t ∷ l) = t ∷ remove_at n l

-- The write number `n` of those in flight reaches the file. The file system promises no order.
abbrev pub land : ℕ → Disk → Disk
land n d = elim (get_elem? d.pending n) [
  | none ↦ d
  | some t ↦ record { file = some t; pending = remove_at n d.pending }
]

map_set_own : (k : String) (a : Association) (m : Entries) → map_get k (map_set k a m) ≡ some a
map_set_own k a m = ground (arith, map_get-map_set k k a m, eq_iff k k)

module _ (parse : String → Result (Option (List Association)))
    (stringify : List Association → String) where
  -- `writeFile` up to where it is awaited: the text is in flight. The result is the one that its
  -- promise settles with when the text has landed, here that of a write that succeeds, and nothing
  -- but the end of the call comes after it.
  abbrev pub issuing : Files Disk
  issuing = record {
    exists_sync = λ d. (ok (is_some d.file), d);
    read_file = λ d. (elim d.file [ none ↦ err (other "ENOENT") | some t ↦ ok t ], d);
    write_file = λ t d. (ok tt, record d { pending = d.pending ++ t ∷ [] });
    parse = parse;
    stringify = stringify;
  }

  abbrev pub associating : Nullable → Account → OracleState Disk → OracleState Disk
  associating fsp_id a s =
      (associate_participant issuing fsp_id a.party_type a.party_id a.party_sub_type a.currency s).1

  abbrev pub entry : Nullable → Account → Association
  entry fsp_id a = association_of_party fsp_id a.party_type a.party_id a.party_sub_type a.currency

  abbrev pub outcome : Nullable → Account → OracleState Disk → Result (Unit {0})
  outcome fsp_id a s =
      (associate_participant issuing fsp_id a.party_type a.party_id a.party_sub_type a.currency s).0

  outcome_new :
      (fsp_id : Nullable) (a : Account) (s : OracleState Disk)
      → map_get (account_key a) s.associations ≡ none
      → outcome fsp_id a s ≡ ok tt
  unfolding associate_participant save_to_file
  outcome_new fsp_id a s new = ground (arith, new)

  associating_new :
      (fsp_id : Nullable) (a : Account) (s : OracleState Disk)
      → map_get (account_key a) s.associations ≡ none
      → associating fsp_id a s ≡ record {
        associations = map_set (account_key a) (entry fsp_id a) s.associations;
        files = record s.files {
          pending =
              s.files.pending
              ++ stringify (values (map_set (account_key a) (entry fsp_id a) s.associations)) ∷ [];
        };
      }
  unfolding associate_participant save_to_file
  associating_new fsp_id a s new = ground (arith, new)

  -- A process that starts when nothing is in flight.
  abbrev pub restarted : Disk → Result (Unit {0}) × OracleState Disk
  restarted d = init issuing (record { associations = []; files = d })

  abbrev saved : Entries → Disk
  saved m = record { file = some (stringify (values m)); pending = [] }

  module _ (round_trip : (l : List Association) → parse (stringify l) ≡ ok (some l))
      (nonempty : (l : List Association) → stringify l ≢ "") where
    restarted-saved :
        (m : Entries)
        → IsKeyed m
        → restarted (saved m) ≡ (ok tt, record { associations = m; files = saved m })
    unfolding init load_from_file read_records
    restarted-saved m keyed = ground (
      arith,
      round_trip (values m),
      nonempty (values m),
      eq_iff (stringify (values m)) "",
      load_records-values m keyed,
    )

    entry-IsKeyed :
        (fsp_id : Nullable) (a : Account) (m : Entries)
        → IsKeyed m
        → IsKeyed (map_set (account_key a) (entry fsp_id a) m)
    unfolding create_key
    entry-IsKeyed fsp_id a m keyed = map_set-IsKeyed (entry fsp_id a) m keyed

    -- Two associations of accounts with different keys are in flight together, on a well-formed map
    -- that has neither key and with no other save in flight, and both writes succeed, so that both
    -- calls resolve; both associations are live in memory. If the file receives the saves in the
    -- order of the calls, a process that starts then has both. If it receives them in the other
    -- order, which `writeFile` does not rule out, the process that starts has the first association
    -- and has lost the second, though its call has resolved.
    pub associations_in_flight :
        (fsp_id₁ fsp_id₂ : Nullable) (a₁ a₂ : Account) (s s₂ : OracleState Disk)
        → IsKeyed s.associations
        → s.files.pending ≡ []
        → map_get (account_key a₁) s.associations ≡ none
        → map_get (account_key a₂) s.associations ≡ none
        → account_key a₁ ≢ account_key a₂
        → associating fsp_id₂ a₂ (associating fsp_id₁ a₁ s) ≡ s₂
        → (outcome fsp_id₁ a₁ s ≡ ok tt)
          × (outcome fsp_id₂ a₂ (associating fsp_id₁ a₁ s) ≡ ok tt)
          × (map_get (account_key a₁) s₂.associations ≡ some (entry fsp_id₁ a₁))
          × (map_get (account_key a₂) s₂.associations ≡ some (entry fsp_id₂ a₂))
          × ((restarted (land 0 (land 0 s₂.files))).0 ≡ ok tt)
          × ((restarted (land 0 (land 0 s₂.files))).1.associations ≡ s₂.associations)
          × ((restarted (land 0 (land 1 s₂.files))).0 ≡ ok tt)
          × (map_get (account_key a₁) (restarted (land 0 (land 1 s₂.files))).1.associations
              ≡ some (entry fsp_id₁ a₁))
          × (map_get (account_key a₂) (restarted (land 0 (land 1 s₂.files))).1.associations ≡ none)
    associations_in_flight fsp_id₁ fsp_id₂ a₁ a₂ s s₂ keyed idle new₁ new₂ differ is =
        let m₁ = map_set (account_key a₁) (entry fsp_id₁ a₁) s.associations in
        let m₂ = map_set (account_key a₂) (entry fsp_id₂ a₂) m₁ in
        let keyed₁ = entry-IsKeyed fsp_id₁ a₁ s.associations keyed in
        let keyed₂ = entry-IsKeyed fsp_id₂ a₂ m₁ keyed₁ in
        let free : map_get (account_key a₂) m₁ ≡ none = ground (
          arith,
          map_get-map_set (account_key a₂) (account_key a₁) (entry fsp_id₁ a₁) s.associations,
          eq_iff (account_key a₁) (account_key a₂),
        ) in
        let first : associating fsp_id₁ a₁ s ≡ record {
          associations = m₁;
          files = record s.files { pending = stringify (values m₁) ∷ [] };
        } =
          associating_new fsp_id₁ a₁ s new₁
          ∙ ap
              (λ (p : List String). record {
                associations = m₁;
                files = record s.files { pending = p ++ stringify (values m₁) ∷ [] };
              })
              idle in
        let second : s₂ ≡ record {
          associations = m₂;
          files = record s.files { pending = stringify (values m₁) ∷ stringify (values m₂) ∷ [] };
        } =
          sym is
          ∙ ap (associating fsp_id₂ a₂) first
          ∙ associating_new fsp_id₂ a₂
              (record {
                associations = m₁;
                files = record s.files { pending = stringify (values m₁) ∷ [] };
              })
              free in
        let in_order : land 0 (land 0 s₂.files) ≡ saved m₂ =
          ap (λ x. land 0 (land 0 x.files)) second in
        let reversed : land 0 (land 1 s₂.files) ≡ saved m₁ =
          ap (λ x. land 0 (land 1 x.files)) second in
        let start₁ = ap restarted reversed ∙ restarted-saved m₁ keyed₁ in
        let start₂ = ap restarted in_order ∙ restarted-saved m₂ keyed₂ in
        let second_free : map_get (account_key a₂) (associating fsp_id₁ a₁ s).associations ≡ none =
          ap (λ x. map_get (account_key a₂) x.associations) first ∙ free in
        let first_kept : map_get (account_key a₁) m₂ ≡ some (entry fsp_id₁ a₁) = ground (
          arith,
          map_get-map_set (account_key a₁) (account_key a₂) (entry fsp_id₂ a₂) m₁,
          map_set_own (account_key a₁) (entry fsp_id₁ a₁) s.associations,
          eq_iff (account_key a₂) (account_key a₁),
        ) in
        (
          outcome_new fsp_id₁ a₁ s new₁,
          outcome_new fsp_id₂ a₂ (associating fsp_id₁ a₁ s) second_free,
          ap (λ x. map_get (account_key a₁) x.associations) second ∙ first_kept,
          ap (λ x. map_get (account_key a₂) x.associations) second
              ∙ map_set_own (account_key a₂) (entry fsp_id₂ a₂) m₁,
          ap (λ o. o.0) start₂,
          ap (λ o. o.1.associations) start₂ ∙ sym (ap (λ x. x.associations) second),
          ap (λ o. o.0) start₁,
          ap (λ o. map_get (account_key a₁) o.1.associations) start₁
              ∙ map_set_own (account_key a₁) (entry fsp_id₁ a₁) s.associations,
          ap (λ o. map_get (account_key a₂) o.1.associations) start₁ ∙ free,
        )
