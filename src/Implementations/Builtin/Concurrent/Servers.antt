-- ===== src/Implementations/Builtin/Concurrent/Servers.antt =====
-- No call of the database or of the cache breaks what stands behind them, whether it resolves or
-- rejects.
use account_lookup_bc.Prelude.{String, List, [], ◌∷◌, ◌++◌, ℕ, ◌≡◌, inl, inr, arith}
use account_lookup_bc.Effect.{Result-cases}
use account_lookup_bc.Types.{Nullable, Association}
use account_lookup_bc.Implementations.Store.{Filter, matches, remove_first, Store, StoreLaws}
use account_lookup_bc.Implementations.Builtin.{key_of, get_from_cache, set_to_cache, del_from_cache}
use account_lookup_bc.Implementations.Builtin.Concurrent.{Party, party_key, entry_of}
use account_lookup_bc.Implementations.Builtin.Concurrent.Backing.{
  FaultLaws, Among, IsBacked, AllAmong-snoc, AllAmong-remove_first, IsSound, IsSound-Expires,
  IsSound-set, IsSound-drop,
}

module _ {W : Type 0} (st : Store W) (secs : ℕ) (laws : StoreLaws st)
    (faults : FaultLaws st laws) where
  open laws use {docs, cached}

  abbrev pub IsSoundAt : List Association → W → Type 0
  IsSoundAt r w = IsSound st secs r (docs w) (cached w)

  -- Both calls that write to the cache.
  pub set_to_cache-IsSoundAt :
      (r : List Association) (p : Party) (fsp_id : Nullable) (w : W)
      → IsSoundAt r w
      → IsBacked r p fsp_id
      → IsSoundAt r (set_to_cache st secs (entry_of st secs p fsp_id) w).1
  unfolding set_to_cache
  set_to_cache-IsSoundAt r p fsp_id w s b =
      let v = st.stringify (entry_of st secs p fsp_id) in
      let call = st.redis_setex (party_key p) secs v w in
      let set = IsSound-set st secs r laws p fsp_id s b in
      elim (Result-cases call.0) [
        | inl (_, e) ↦
            let (same, expired) =
              laws.setex_law (party_key p) secs v w call.1 (ground (arith, e)) in
            IsSound-Expires st secs r _ _ set same expired
        | inr (x, e) ↦
            let (same, one) =
              faults.setex_fault (party_key p) secs v x w call.1 (ground (arith, e)) in
            elim one [
              | inl lost ↦ IsSound-Expires st secs r _ _ s same lost
              | inr written ↦ IsSound-Expires st secs r _ _ set same written
            ]
      ]

  pub del_from_cache-IsSoundAt :
      (r : List Association) (a : Association) (w : W)
      → IsSoundAt r w
      → IsSoundAt r (del_from_cache st secs a w).1
  unfolding del_from_cache
  del_from_cache-IsSoundAt r a w s =
      let call = st.redis_del (key_of a) w in
      let dropped = IsSound-drop st secs r (key_of a) s in
      elim (Result-cases call.0) [
        | inl (_, e) ↦
            let (same, expired) = laws.del_law (key_of a) w call.1 (ground (arith, e)) in
            IsSound-Expires st secs r _ _ dropped same expired
        | inr (x, e) ↦
            let (same, one) = faults.del_fault (key_of a) x w call.1 (ground (arith, e)) in
            elim one [
              | inl lost ↦ IsSound-Expires st secs r _ _ s same lost
              | inr taken ↦ IsSound-Expires st secs r _ _ dropped same taken
            ]
      ]

  pub redis_get-IsSoundAt :
      (r : List Association) (k : String) (w : W) → IsSoundAt r w → IsSoundAt r (st.redis_get k w).1
  redis_get-IsSoundAt r k w s =
      let call = st.redis_get k w in
      elim (Result-cases call.0) [
        | inl (t, e) ↦
            let (_, same, expired) = laws.get_law k t w call.1 (ground (arith, e)) in
            IsSound-Expires st secs r _ _ s same expired
        | inr (x, e) ↦
            let (same, expired) = faults.get_fault k x w call.1 (ground (arith, e)) in
            IsSound-Expires st secs r _ _ s same expired
      ]

  pub find_one-IsSoundAt :
      (r : List Association) (f : Filter) (w : W) → IsSoundAt r w → IsSoundAt r (st.find_one f w).1
  find_one-IsSoundAt r f w s =
      let call = st.find_one f w in
      elim (Result-cases call.0) [
        | inl (t, e) ↦
            let (_, same, expired) = laws.find_one_law f t w call.1 (ground (arith, e)) in
            IsSound-Expires st secs r _ _ s same expired
        | inr (x, e) ↦
            let (same, expired) = faults.find_one_fault f x w call.1 (ground (arith, e)) in
            IsSound-Expires st secs r _ _ s same expired
      ]

  pub insert_one-IsSoundAt :
      (r : List Association) (d : Association) (w : W)
      → IsSoundAt r w
      → Among d r
      → IsSoundAt r (st.insert_one d w).1
  insert_one-IsSoundAt r d w s asked =
      let call = st.insert_one d w in
      let stored : IsSound st secs r (docs w ++ d ∷ []) (cached w) = record {
        documents = AllAmong-snoc r (docs w) d s.documents asked;
        entries = s.entries;
      } in
      elim (Result-cases call.0) [
        | inl (_, e) ↦
            let (same, expired) = laws.insert_one_law d w call.1 (ground (arith, e)) in
            IsSound-Expires st secs r _ _ stored same expired
        | inr (x, e) ↦
            let (one, expired) = faults.insert_one_fault d x w call.1 (ground (arith, e)) in
            elim one [
              | inl same ↦ IsSound-Expires st secs r _ _ s same expired
              | inr same ↦ IsSound-Expires st secs r _ _ stored same expired
            ]
      ]

  pub delete_one-IsSoundAt :
      (r : List Association) (f : Filter) (w : W)
      → IsSoundAt r w
      → IsSoundAt r (st.delete_one f w).1
  delete_one-IsSoundAt r f w s =
      let call = st.delete_one f w in
      let left : IsSound st secs r (remove_first (matches f) (docs w)) (cached w) = record {
        documents = AllAmong-remove_first r (docs w) (matches f) s.documents;
        entries = s.entries;
      } in
      elim (Result-cases call.0) [
        | inl (_, e) ↦
            let (same, expired) = laws.delete_one_law f w call.1 (ground (arith, e)) in
            IsSound-Expires st secs r _ _ left same expired
        | inr (x, e) ↦
            let (one, expired) = faults.delete_one_fault f x w call.1 (ground (arith, e)) in
            elim one [
              | inl same ↦ IsSound-Expires st secs r _ _ s same expired
              | inr same ↦ IsSound-Expires st secs r _ _ left same expired
            ]
      ]

  pub get_from_cache_world :
      (p : Party) (w : W)
      → (st.redis_get (party_key p) w).1
        ≡ (get_from_cache st secs p.party_type p.party_id p.party_sub_type p.currency w).1
  unfolding get_from_cache
  get_from_cache_world p w = ground arith
