-- ===== src/Implementations/Builtin/Concurrent/Backing.antt =====
-- What stands behind the documents of the collection and the entries of the cache while calls are
-- in flight: an association that was asked for.
use account_lookup_bc.Prelude.{
  String, some, Bool, true, List, [], ◌∷◌, ◌++◌, ◌≡◌, ◌⊎◌, inl, inr, ◌∙◌, sym, ap, arith, ℕ, find,
  subst, ◌==◌, eq_iff, Bool-cases,
}
use account_lookup_bc.Effect.{Error, err}
use account_lookup_bc.Types.{Nullable, Association}
use account_lookup_bc.Implementations.Store.{
  Filter, matches, remove_first, Store, StoreLaws, Cache, Expires, set_entry, drop_entry,
}
use account_lookup_bc.Implementations.Builtin.Concurrent.{Party, party_key, query_of, entry_of}

-- The documented behaviour of the calls that reject: an answer may be lost with the call carried
-- out or not, and nothing else happens.
pub record FaultLaws {W : Type 0} (st : Store W) (laws : StoreLaws st) : Type 0 where
  pub find_one_fault :
      (f : Filter) (e : Error) (w w' : W)
      → st.find_one f w ≡ (err e, w')
      → (laws.docs w' ≡ laws.docs w) × Expires (laws.cached w) (laws.cached w')
  pub insert_one_fault :
      (d : Association) (e : Error) (w w' : W)
      → st.insert_one d w ≡ (err e, w')
      → ((laws.docs w' ≡ laws.docs w) ⊎ (laws.docs w' ≡ laws.docs w ++ d ∷ []))
        × Expires (laws.cached w) (laws.cached w')
  pub delete_one_fault :
      (f : Filter) (e : Error) (w w' : W)
      → st.delete_one f w ≡ (err e, w')
      → ((laws.docs w' ≡ laws.docs w) ⊎ (laws.docs w' ≡ remove_first (matches f) (laws.docs w)))
        × Expires (laws.cached w) (laws.cached w')
  pub get_fault :
      (k : String) (e : Error) (w w' : W)
      → st.redis_get k w ≡ (err e, w')
      → (laws.docs w' ≡ laws.docs w) × Expires (laws.cached w) (laws.cached w')
  pub setex_fault :
      (k : String) (secs : ℕ) (v : String) (e : Error) (w w' : W)
      → st.redis_setex k secs v w ≡ (err e, w')
      → (laws.docs w' ≡ laws.docs w)
        × (Expires (laws.cached w) (laws.cached w')
            ⊎ Expires (set_entry k v (laws.cached w)) (laws.cached w'))
  pub del_fault :
      (k : String) (e : Error) (w w' : W)
      → st.redis_del k w ≡ (err e, w')
      → (laws.docs w' ≡ laws.docs w)
        × (Expires (laws.cached w) (laws.cached w')
            ⊎ Expires (drop_entry k (laws.cached w)) (laws.cached w'))

-- `d` is in the list.
abbrev pub Among : Association → List Association → Type 0
Among d [] = ⊥
Among d (x ∷ l) = (x ≡ d) ⊎ Among d l

abbrev pub AllAmong : List Association → List Association → Type 0
AllAmong requested [] = Unit {0}
AllAmong requested (d ∷ l) = Among d requested × AllAmong requested l

-- An association was asked for that matches the party and has the FSP id.
pub record IsBacked (requested : List Association) (p : Party) (fsp_id : Nullable) : Type 0 where
  pub origin : Association
  pub asked : Among origin requested
  pub matching : matches (query_of p) origin ≡ true
  pub same_fsp : origin.fsp_id ≡ fsp_id

-- The same of a party that has the key.
pub record IsBackedKey (requested : List Association) (k : String) (fsp_id : Nullable)
    : Type 0 where
  pub party : Party
  pub same_key : party_key party ≡ k
  pub backed : IsBacked requested party fsp_id

pub Among-cons :
    (r : List Association) (x : Association) {p : Party} {f : Nullable}
    → IsBacked r p f
    → IsBacked (x ∷ r) p f
Among-cons r x b = record {
  origin = b.origin;
  asked = inr b.asked;
  matching = b.matching;
  same_fsp = b.same_fsp;
}

pub IsBackedKey-cons :
    (r : List Association) (x : Association) {k : String} {f : Nullable}
    → IsBackedKey r k f
    → IsBackedKey (x ∷ r) k f
IsBackedKey-cons r x b = record {
  party = b.party;
  same_key = b.same_key;
  backed = Among-cons r x b.backed;
}

pub AllAmong-cons : (r l : List Association) (x : Association) → AllAmong r l → AllAmong (x ∷ r) l
AllAmong-cons r [] x h = tt
AllAmong-cons r (d ∷ l) x (a, h) = (inr a, AllAmong-cons r l x h)

pub AllAmong-snoc :
    (r l : List Association) (d : Association) → AllAmong r l → Among d r → AllAmong r (l ++ d ∷ [])
AllAmong-snoc r [] d h a = (a, tt)
AllAmong-snoc r (x ∷ l) d (b, h) a = (b, AllAmong-snoc r l d h a)

pub AllAmong-remove_first :
    (r l : List Association) (p : Association → Bool) → AllAmong r l → AllAmong r (remove_first p l)
AllAmong-remove_first r [] p h = tt
AllAmong-remove_first r (x ∷ l) p (a, h) = elim (Bool-cases (p x)) [
  | inl first ↦ rw first h
  | inr later ↦ rw later (a, AllAmong-remove_first r l p h)
]

pub Among-find :
    (r l : List Association) (p : Association → Bool) (d : Association)
    → AllAmong r l
    → find p l ≡ some d
    → Among d r × (p d ≡ true)
Among-find r [] p d h e = cc
Among-find r (x ∷ l) p d (a, h) e = elim (Bool-cases (p x)) [
  | inl first ↦
      let is : x ≡ d = ground (arith, first) in (subst (λ y. Among y r) is a, ap p (sym is) ∙ first)
  | inr later ↦ Among-find r l p d h (ground (arith, later))
]

module _ {W : Type 0} (st : Store W) (secs : ℕ) (r : List Association) where
  -- Every document was asked for, and every entry of the cache is one of a party with that key, for
  -- whose FSP an association was asked for.
  pub record IsSound (l : List Association) (c : Cache) : Type 0 where
    pub documents : AllAmong r l
    pub entries :
        (k v : String)
        → c k ≡ some v
        → (f : Nullable) × IsBackedKey r k f × (st.fsp_id_of v ≡ some f)

  pub IsSound-Expires :
      {l : List Association} {c : Cache} (l' : List Association) (c' : Cache)
      → IsSound l c
      → l' ≡ l
      → Expires c c'
      → IsSound l' c'
  IsSound-Expires l' c' s e h = record {
    documents = subst (AllAmong r) (sym e) s.documents;
    entries = λ k v live. elim (h k) [ inl same ↦ s.entries k v (sym same ∙ live) | inr gone ↦ cc ];
  }

  pub IsSound-set :
      {l : List Association} {c : Cache} (laws : StoreLaws st) (p : Party) (f : Nullable)
      → IsSound l c
      → IsBacked r p f
      → IsSound l (set_entry (party_key p) (st.stringify (entry_of st secs p f)) c)
  IsSound-set {l} {c} laws p f s b = record {
    documents = s.documents;
    entries = λ k v live. elim (Bool-cases (k == party_key p)) [
      | inl own ↦ (
        f,
        record { party = p; same_key = sym ((eq_iff k (party_key p)).0 own); backed = b },
        ap st.fsp_id_of (ground (arith, live, own)) ∙ laws.json_law (entry_of st secs p f),
      )
      | inr other ↦ s.entries k v (ground (arith, live, other))
    ];
  }

  pub IsSound-drop :
      {l : List Association} {c : Cache} (k : String) → IsSound l c → IsSound l (drop_entry k c)
  IsSound-drop {l} {c} k s = record {
    documents = s.documents;
    entries = λ j v live. elim (Bool-cases (j == k)) [
      | inl own ↦ ground (arith, live, own)
      | inr other ↦ s.entries j v (ground (arith, live, other))
    ];
  }
