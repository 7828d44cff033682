-- ===== src/Implementations/Builtin/Keywords.antt =====
-- The search keywords of the built-in oracle: each field's terms are the distinct values of the
-- groups.
use account_lookup_bc.Prelude.{
  String, none, some, true, false, List, [], ◌∷◌, ◌++◌, map, ℕ, ◌||◌, length, nullable_eq,
  nullable_eq_refl, eq_iff, Bool-cases, ◌≡◌, refl, sym, ap, subst, zero, suc, ◌∙◌, inl, inr, arith,
}
use account_lookup_bc.Effect.{ok}
use account_lookup_bc.Types.{Nullable, SearchKeywords}
use account_lookup_bc.Implementations.Builtin.Search.{
  Group, SearchStore, includes, add_terms, keywords_of, push_keywords, three_fields,
  get_search_keywords,
}

-- No value occurs twice.
abbrev pub IsDistinct : List Nullable → Type 0
IsDistinct [] = Unit
IsDistinct (v ∷ rest) = (includes rest v ≡ false) × IsDistinct rest

nullable_eq_sound : (u v : Nullable) → nullable_eq u v ≡ true → u ≡ v
nullable_eq_sound none none h = refl
nullable_eq_sound (some a) (some b) h = ap some ((eq_iff a b).0 h)
nullable_eq_sound none (some b) h = cc
nullable_eq_sound (some a) none h = cc

nullable_eq_flip : (u v : Nullable) → nullable_eq u v ≡ false → nullable_eq v u ≡ false
nullable_eq_flip u v h = elim (Bool-cases (nullable_eq v u)) [
  | inl same ↦ ground (arith, nullable_eq_sound v u same, nullable_eq_refl u, h)
  | inr differ ↦ differ
]

includes-append :
    (l m : List Nullable) (v : Nullable) → includes (l ++ m) v ≡ (includes l v || includes m v)
includes-append [] m v = refl
includes-append (u ∷ l) m v = ground (arith, includes-append l m v)

append-IsDistinct :
    (l : List Nullable) (v : Nullable)
    → IsDistinct l
    → includes l v ≡ false
    → IsDistinct (l ++ v ∷ [])
append-IsDistinct [] v h new = (refl, tt)
append-IsDistinct (u ∷ l) v (once, rest) new = (
  ground (arith, includes-append l (v ∷ []) u, once, new, nullable_eq_flip u v),
  append-IsDistinct l v rest (ground (arith, new)),
)

module _ (terms : List Nullable) (u : Nullable) (l : List Nullable) where
  add_terms_known : includes terms u ≡ true → add_terms terms (u ∷ l) ≡ add_terms terms l
  unfolding add_terms
  add_terms_known known = ground (arith, known)

  add_terms_new : includes terms u ≡ false → add_terms terms (u ∷ l) ≡ add_terms (terms ++ u ∷ []) l
  unfolding add_terms
  add_terms_new new = ground (arith, new)

add_terms_nil : (terms : List Nullable) → add_terms terms [] ≡ terms
unfolding add_terms
add_terms_nil terms = refl

add_terms-IsDistinct : (terms l : List Nullable) → IsDistinct terms → IsDistinct (add_terms terms l)
add_terms-IsDistinct terms [] h = subst IsDistinct (sym (add_terms_nil terms)) h
add_terms-IsDistinct terms (u ∷ l) h = elim (Bool-cases (includes terms u)) [
  | inl known ↦
      subst IsDistinct (sym (add_terms_known terms u l known)) (add_terms-IsDistinct terms l h)
  | inr new ↦
      subst IsDistinct (sym (add_terms_new terms u l new))
        (add_terms-IsDistinct (terms ++ u ∷ []) l (append-IsDistinct terms u h new))
]

includes-add_terms :
    (terms l : List Nullable) (v : Nullable)
    → includes (add_terms terms l) v ≡ (includes terms v || includes l v)
includes-add_terms terms [] v = ground (arith, add_terms_nil terms)
includes-add_terms terms (u ∷ l) v = elim (Bool-cases (includes terms u)) [
  | inl known ↦
      ap (λ t. includes t v) (add_terms_known terms u l known)
      ∙ includes-add_terms terms l v
      ∙ ground (arith, known, nullable_eq_sound u v)
  | inr new ↦
      ap (λ t. includes t v) (add_terms_new terms u l new)
      ∙ includes-add_terms (terms ++ u ∷ []) l v
      ∙ ground (arith, includes-append terms (u ∷ []) v)
]

-- The terms of a field are the values of its column, each once.
abbrev pub IsFieldOf : String → List Nullable → SearchKeywords → Type 0
IsFieldOf name column k =
    (k.field_name ≡ name)
    × IsDistinct k.distinct_terms
    × ((v : Nullable) → includes k.distinct_terms v ≡ includes column v)

keywords_of-IsFieldOf :
    (name : String) (column : List Nullable) → IsFieldOf name column (keywords_of name column)
keywords_of-IsFieldOf name column =
    (refl, add_terms-IsDistinct [] column tt, includes-add_terms [] column)

-- `n` copies of a list, one after the other
abbrev pub copies {ℓ} : {A : Type ℓ} → ℕ → List A → List A
copies zero l = []
copies (suc n) l = l ++ copies n l

push_keywords-copies :
    (gs : List Group) (fields : List SearchKeywords)
    → push_keywords gs fields ≡ copies (length gs) fields
unfolding push_keywords
push_keywords-copies [] fields = refl
push_keywords-copies (g ∷ rest) fields = ap (λ l. fields ++ l) (push_keywords-copies rest fields)

module _ {W : Type 0} (search : SearchStore W) where
  -- `getSearchKeywords` of the built-in oracle always resolves. With the groups that the cursor
  -- yields, also before it fails, its three fields hold the distinct party types, the distinct
  -- currencies and the distinct FSP ids of those groups, each once; the answer repeats the three
  -- fields as many times as there are groups.
  pub get_search_keywords_lem :
      (w : W) (gs : List Group)
      → (search.groups w).0.0 ≡ gs
      → (types : SearchKeywords) × (currencies : SearchKeywords) × (fsp_ids : SearchKeywords)
        × ((get_search_keywords search w).0
            ≡ ok (copies (length gs) (types ∷ currencies ∷ fsp_ids ∷ [])))
        × IsFieldOf "partyType" (map (λ (g : Group). g.party_type) gs) types
        × IsFieldOf "currency" (map (λ (g : Group). g.currency) gs) currencies
        × IsFieldOf "fspId" (map (λ (g : Group). g.fsp_id) gs) fsp_ids
  unfolding get_search_keywords
  get_search_keywords_lem w gs yielded = (
    keywords_of "partyType" (map (λ (g : Group). g.party_type) gs),
    keywords_of "currency" (map (λ (g : Group). g.currency) gs),
    keywords_of "fspId" (map (λ (g : Group). g.fsp_id) gs),
    ap (λ l. ok (push_keywords l (three_fields l))) yielded
        ∙ ap ok (push_keywords-copies gs (three_fields gs)),
    keywords_of-IsFieldOf "partyType" (map (λ (g : Group). g.party_type) gs),
    keywords_of-IsFieldOf "currency" (map (λ (g : Group). g.currency) gs),
    keywords_of-IsFieldOf "fspId" (map (λ (g : Group). g.fsp_id) gs),
  )
