-- ===== src/Implementations/Store.antt =====
-- The MongoDB collection of associations and the Redis cache that
-- packages/implementations-lib/src/oracles/adapters/builtin/mongo_oracleprovider.ts uses, as
-- parameters: the calls, and what their documentation promises of them.
use account_lookup_bc.Prelude.{
  String, Option, none, some, Bool, true, List, [], ◌∷◌, ◌++◌, ℕ, find, ◌&&◌, ◌==◌, nullable_eq,
  ◌≡◌, ◌≢◌, ◌⊎◌, if◌then◌else◌,
}
use account_lookup_bc.Effect.{ok, Action}
use account_lookup_bc.Types.{Nullable, Association}

-- A filter on equality. The party id and type are always given, and null matches a document that
-- has null or no such field; of the other keys `none` says that the filter does not have them.
pub record Filter : Type 0 where
  pub party_id : Nullable
  pub party_type : Nullable
  pub fsp_id : Option Nullable
  pub party_sub_type : Nullable
  pub currency : Nullable

abbrev pub given_eq : Nullable → Nullable → Bool
given_eq none field = true
given_eq (some v) field = nullable_eq field (some v)

abbrev pub given_fsp_eq : Option Nullable → Nullable → Bool
given_fsp_eq none field = true
given_fsp_eq (some v) field = nullable_eq field v

-- When a stored document matches a filter.
abbrev pub matches : Filter → Association → Bool
matches f d =
    nullable_eq d.party_id f.party_id
    && (nullable_eq d.party_type f.party_type
        && (given_fsp_eq f.fsp_id d.fsp_id
            && (given_eq f.party_sub_type d.party_sub_type && given_eq f.currency d.currency)))

-- The first match is taken out.
abbrev pub remove_first {ℓ} : {A : Type ℓ} → (A → Bool) → List A → List A
remove_first p [] = []
remove_first p (x ∷ xs) = if p x then xs else x ∷ remove_first p xs

-- The calls, on the state `W` of the two servers. `fsp_id_of` is `JSON.parse` and the access to
-- `fspId`: `none` if the text does not parse or is falsy.
pub record Store (W : Type 0) : Type 0 where
  pub find_one : Filter → Action W (Option Association)
  pub insert_one : Association → Action W (Unit {0})
  pub delete_one : Filter → Action W (Unit {0})
  pub find_all : Action W (List Association)
  pub redis_get : String → Action W (Option String)
  pub redis_setex : String → ℕ → String → Action W (Unit {0})
  pub redis_del : String → Action W (Unit {0})
  pub stringify : Association → String
  pub fsp_id_of : String → Option Nullable

abbrev pub Cache : Type 0
Cache = String → Option String

-- Time passes during every call: an entry may have expired, and none appears.
abbrev pub Expires : Cache → Cache → Type 0
Expires c c' = (k : String) → (c' k ≡ c k) ⊎ (c' k ≡ none)

abbrev pub set_entry : String → String → Cache → Cache
set_entry k v c j = if j == k then some v else c j

abbrev pub drop_entry : String → Cache → Cache
drop_entry k c j = if j == k then none else c j

-- The documented behaviour. A call that rejects is promised nothing about. `docs` are the documents
-- in the collection's natural order, in which `findOne` and `deleteOne` take the first match; that
-- an insertion comes last in it goes beyond the documentation, and matters only where several
-- documents match.
pub record StoreLaws {W : Type 0} (st : Store W) : Type 0 where
  pub docs : W → List Association
  pub cached : W → Cache
  pub find_one_law :
      (f : Filter) (r : Option Association) (w w' : W)
      → st.find_one f w ≡ (ok r, w')
      → (r ≡ find (matches f) (docs w)) × (docs w' ≡ docs w) × Expires (cached w) (cached w')
  pub insert_one_law :
      (d : Association) (w w' : W)
      → st.insert_one d w ≡ (ok tt, w')
      → (docs w' ≡ docs w ++ d ∷ []) × Expires (cached w) (cached w')
  pub delete_one_law :
      (f : Filter) (w w' : W)
      → st.delete_one f w ≡ (ok tt, w')
      → (docs w' ≡ remove_first (matches f) (docs w)) × Expires (cached w) (cached w')
  pub find_all_law :
      (r : List Association) (w w' : W)
      → st.find_all w ≡ (ok r, w')
      → (r ≡ docs w) × (docs w' ≡ docs w) × Expires (cached w) (cached w')
  pub get_law :
      (k : String) (r : Option String) (w w' : W)
      → st.redis_get k w ≡ (ok r, w')
      → (r ≡ cached w k) × (docs w' ≡ docs w) × Expires (cached w) (cached w')
  pub setex_law :
      (k : String) (secs : ℕ) (v : String) (w w' : W)
      → st.redis_setex k secs v w ≡ (ok tt, w')
      → (docs w' ≡ docs w) × Expires (set_entry k v (cached w)) (cached w')
  pub del_law :
      (k : String) (w w' : W)
      → st.redis_del k w ≡ (ok tt, w')
      → (docs w' ≡ docs w) × Expires (drop_entry k (cached w)) (cached w')
  pub json_law : (a : Association) → st.fsp_id_of (st.stringify a) ≡ some a.fsp_id
  pub json_nonempty : (a : Association) → st.stringify a ≢ ""
