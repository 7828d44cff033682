-- ===== src/Implementations/Builtin/Keys.antt =====
-- The cache keys of the built-in oracle: the parts of a key are joined by a character that they may
-- hold themselves, so two parties can share a key.
use text.Mathlib.TextLemmas.{append_assoc}
use account_lookup_bc.Prelude.{String, none, some, ℕ, ◌≡◌, ◌≢◌, ◌∙◌, ◌<>◌, inl, inr, arith, eq_iff}
use account_lookup_bc.Effect.{ok}
use account_lookup_bc.Types.{Nullable}
use account_lookup_bc.Implementations.Store.{Store, StoreLaws}
use account_lookup_bc.Implementations.Builtin.{
  get_key_with_prefix, cache_entry, get_participant_fsp_id, associate_participant,
}
use account_lookup_bc.Implementations.Builtin.Effects.{associate_effect, lookup_effect}
use account_lookup_bc.Implementations.Builtin.Lookup.{known_of_entry}

-- An underscore may move from the party type into the party id.
get_key_with_prefix_shift :
    (a b c : String) (party_sub_type currency : Nullable)
    → get_key_with_prefix (some (a <> "_" <> b)) (some c) party_sub_type currency
      ≡ get_key_with_prefix (some a) (some (b <> "_" <> c)) party_sub_type currency
unfolding get_key_with_prefix
get_key_with_prefix_shift a b c party_sub_type currency = simp append_assoc

module _ {W : Type 0} (st : Store W) (secs : ℕ) (laws : StoreLaws st) where
  open laws use {docs, cached}

  -- Where the servers behave as documented, for any texts `a`, `b` and `c`: after an association
  -- for the party type `a_b` and the party id `c` that resolves, a lookup of the party type `a` and
  -- the party id `b_c`, with the same sub type and currency, that resolves answers with that
  -- association's FSP, as long as the cache entry lives and whatever the collection holds for the
  -- party looked up.
  pub lookup_of_shared_key :
      (a b c : String) (fsp_id party_sub_type currency r : Nullable) (w w₁ w₂ : W)
      → associate_participant st secs fsp_id
          (some (a <> "_" <> b))
          (some c)
          party_sub_type
          currency
          w
        ≡ (ok tt, w₁)
      → cached w₁ (get_key_with_prefix (some a) (some (b <> "_" <> c)) party_sub_type currency)
        ≢ none
      → get_participant_fsp_id st secs (some a) (some (b <> "_" <> c)) party_sub_type currency w₁
        ≡ (ok r, w₂)
      → r ≡ fsp_id
  lookup_of_shared_key a b c fsp_id party_sub_type currency r w w₁ w₂ associated live looked_up =
      let (_, stored, expired) =
        associate_effect st secs laws (some (a <> "_" <> b)) (some c) party_sub_type currency fsp_id
          w w₁ associated in
      let (is, _) =
        lookup_effect st secs laws (some a) (some (b <> "_" <> c)) party_sub_type currency r w₁ w₂
          looked_up in
      let k = get_key_with_prefix (some a) (some (b <> "_" <> c)) party_sub_type currency in
      let k' = get_key_with_prefix (some (a <> "_" <> b)) (some c) party_sub_type currency in
      let entry =
        cache_entry st secs (some (a <> "_" <> b)) (some c) party_sub_type currency fsp_id in
      let same : k' ≡ k = get_key_with_prefix_shift a b c party_sub_type currency in
      elim (expired k) [
        | inl set ↦
            is
            ∙ known_of_entry st secs laws (some a) (some (b <> "_" <> c)) party_sub_type currency w₁
                entry (ground (arith, set, same, eq_iff k' k))
        | inr gone ↦ absurd (live gone)
      ]
