-- ===== src/Implementations/Builtin/Concurrent/Safety.antt =====
-- What calls in flight may answer, in whatever order they go on and whichever of them fail.
use account_lookup_bc.Prelude.{
  String, Option, none, some, List, [], ◌∷◌, ℕ, eqb, ◌≡◌, refl, inl, inr, sym, arith, subst,
  Bool-cases, Option-cases,
}
use account_lookup_bc.Effect.{
  ok, or_throw, unable_to_get_participant, unable_to_associate_participant,
  unable_to_disassociate_participant, Result-cases,
}
use account_lookup_bc.Types.{Nullable, Association}
use account_lookup_bc.Implementations.Store.{matches, Store, StoreLaws}
use account_lookup_bc.Implementations.Builtin.{
  parse_entry, get_from_cache, set_to_cache, del_from_cache,
}
use account_lookup_bc.Implementations.Builtin.Concurrent.{
  Party, Call, reading, querying, saving, looking, inserting, caching, deleting, uncaching, found,
  done, failed, after_cache, after_query, after_look, party_key, query_of, lookup_of, document_of,
  entry_of, advance, System, Step, look_up, associate, disassociate, go_on, update, Reach, here,
  next,
}
use account_lookup_bc.Implementations.Builtin.Concurrent.Backing.{
  FaultLaws, Among, AllAmong, IsBackedKey, IsBackedKey-cons, AllAmong-cons, Among-find,
}
use account_lookup_bc.Implementations.Builtin.Concurrent.Coverage.{
  IsAnswer, IsCovered, IsCovered-cons, IsBacked-own, IsCovered-continue, or_throw_ok,
}
use account_lookup_bc.Implementations.Builtin.Concurrent.Servers.{
  IsSoundAt, set_to_cache-IsSoundAt, del_from_cache-IsSoundAt, redis_get-IsSoundAt,
  find_one-IsSoundAt, insert_one-IsSoundAt, delete_one-IsSoundAt, get_from_cache_world,
}

module _ {W : Type 0} (st : Store W) (secs : ℕ) (laws : StoreLaws st)
    (faults : FaultLaws st laws) where
  open laws use {docs, cached}

  abbrev IsSoundIn : List Association → W → Type 0
  IsSoundIn = IsSoundAt st secs laws faults

  abbrev IsSafe : List Association → Call × W → Type 0
  IsSafe r (c, w) = IsSoundIn r w × IsCovered r c

  -- An entry that is read is an answer for every party that has its key.
  IsAnswer-hit :
      (r : List Association) (p : Party) (w : W) (fsp_id : Nullable)
      → IsSoundIn r w
      → parse_entry st secs (cached w (party_key p)) ≡ some fsp_id
      → IsAnswer r p fsp_id
  IsAnswer-hit r p w fsp_id s hit = elim (Option-cases (cached w (party_key p))) [
    | inl missing ↦ ground (arith, missing, hit)
    | inr (text, live) ↦
        let (f, backed, is) = s.entries (party_key p) text live in
        let same : f ≡ fsp_id = ground (arith, live, hit, is) in
        inr (subst (IsBackedKey r (party_key p)) same backed)
  ]

  IsCovered-read :
      (r : List Association) (p : Party) (w : W) (hit : Option Nullable)
      → IsSoundIn r w
      → get_from_cache st secs p.party_type p.party_id p.party_sub_type p.currency w
        ≡ (ok hit, (get_from_cache st secs p.party_type p.party_id p.party_sub_type p.currency w).1)
      → IsCovered r (after_cache p hit)
  unfolding get_from_cache
  IsCovered-read r p w none s h = tt
  IsCovered-read r p w (some fsp_id) s h =
      let call = st.redis_get (party_key p) w in
      elim (Result-cases call.0) [
        | inl (text, e) ↦
            let (is, _, _) = laws.get_law (party_key p) text w call.1 (ground (arith, e)) in
            IsAnswer-hit r p w fsp_id s (ground (arith, is, e))
        | inr (x, e) ↦ ground arith
      ]

  IsCovered-queried :
      (r : List Association) (p : Party) (w : W) (o : Option Association)
      → IsSoundIn r w
      → st.find_one (query_of p) w ≡ (ok o, (st.find_one (query_of p) w).1)
      → IsCovered r (after_query p o)
  IsCovered-queried r p w none s h = inl refl
  IsCovered-queried r p w (some d) s h =
      let (is, _, _) = laws.find_one_law (query_of p) (some d) w _ h in
      let (asked, matching) = Among-find r (docs w) (matches (query_of p)) d s.documents (sym is) in
      record { origin = d; asked = asked; matching = matching; same_fsp = refl }

  IsCovered-looked :
      (r : List Association) (p : Party) (fsp_id : Nullable) (o : Option Association)
      → Among (document_of p fsp_id) r
      → IsCovered r (after_look p fsp_id o)
  IsCovered-looked r p fsp_id none h = h
  IsCovered-looked r p fsp_id (some d) h = tt

  advance-IsSafe :
      (r : List Association) (c : Call) (w : W)
      → IsSoundIn r w
      → IsCovered r c
      → IsSafe r (advance st secs c w)
  unfolding advance
  advance-IsSafe r (reading p) w s h = (
    subst (IsSoundIn r) (get_from_cache_world st secs laws faults p w)
        (redis_get-IsSoundAt st secs laws faults r (party_key p) w s),
    IsCovered-continue r (after_cache p)
        (get_from_cache st secs p.party_type p.party_id p.party_sub_type p.currency) w
        (λ hit e. IsCovered-read r p w hit s e),
  )
  advance-IsSafe r (querying p) w s h = (
    find_one-IsSoundAt st secs laws faults r (query_of p) w s,
    IsCovered-continue r (after_query p)
        (or_throw (st.find_one (query_of p)) unable_to_get_participant) w
        (λ o e.
          IsCovered-queried r p w o s
            (or_throw_ok (st.find_one (query_of p)) unable_to_get_participant w o e)),
  )
  advance-IsSafe r (saving p fsp_id) w s h = (
    set_to_cache-IsSoundAt st secs laws faults r p fsp_id w s h,
    IsCovered-continue r (λ _. found p fsp_id) (set_to_cache st secs (entry_of st secs p fsp_id)) w
        (λ _ _. inr (record { party = p; same_key = refl; backed = h })),
  )
  advance-IsSafe r (looking p fsp_id) w s h = (
    find_one-IsSoundAt st secs laws faults r (lookup_of p fsp_id) w s,
    IsCovered-continue r (after_look p fsp_id) (st.find_one (lookup_of p fsp_id)) w
        (λ o _. IsCovered-looked r p fsp_id o h),
  )
  advance-IsSafe r (inserting p fsp_id) w s h = (
    insert_one-IsSoundAt st secs laws faults r (document_of p fsp_id) w s h,
    IsCovered-continue r (λ _. caching p fsp_id)
        (or_throw (st.insert_one (document_of p fsp_id)) unable_to_associate_participant) w
        (λ _ _. IsBacked-own r p fsp_id h),
  )
  advance-IsSafe r (caching p fsp_id) w s h = (
    set_to_cache-IsSoundAt st secs laws faults r p fsp_id w s h,
    IsCovered-continue r (λ _. done) (set_to_cache st secs (entry_of st secs p fsp_id)) w
        (λ _ _. tt),
  )
  advance-IsSafe r (deleting p fsp_id) w s h = (
    delete_one-IsSoundAt st secs laws faults r (lookup_of p fsp_id) w s,
    IsCovered-continue r (λ _. uncaching p fsp_id)
        (or_throw (st.delete_one (lookup_of p fsp_id)) unable_to_disassociate_participant) w
        (λ _ _. tt),
  )
  advance-IsSafe r (uncaching p fsp_id) w s h = (
    del_from_cache-IsSoundAt st secs laws faults r (entry_of st secs p fsp_id) w s,
    IsCovered-continue r (λ _. done) (del_from_cache st secs (entry_of st secs p fsp_id)) w
        (λ _ _. tt),
  )
  advance-IsSafe r (found p fsp_id) w s h = (s, h)
  advance-IsSafe r done w s h = (s, h)
  advance-IsSafe r (failed e) w s h = (s, h)

  -- What holds of the whole system.
  record Inv (s : System st secs) : Type 0 where
    sound : IsSoundIn s.requested s.world
    covered : (i : ℕ) → IsCovered s.requested (s.calls i)

  IsCovered-update :
      (r : List Association) (calls : ℕ → Call) (i : ℕ) (c : Call)
      → ((j : ℕ) → IsCovered r (calls j))
      → IsCovered r c
      → (j : ℕ) → IsCovered r (update st secs calls i c j)
  IsCovered-update r calls i c h h' j = elim (Bool-cases (eqb i j)) [
    | inl here_now ↦ rw here_now h'
    | inr elsewhere ↦ rw elsewhere (h j)
  ]

  IsSoundIn-cons :
      (r : List Association) (x : Association) (w : W) → IsSoundIn r w → IsSoundIn (x ∷ r) w
  IsSoundIn-cons r x w s = record {
    documents = AllAmong-cons r (docs w) x s.documents;
    entries = λ k v live.
        let (f, backed, is) = s.entries k v live in (f, IsBackedKey-cons r x backed, is);
  }

  Step-Inv : {s t : System st secs} → Step st secs s t → Inv s → Inv t
  Step-Inv (look_up s i p) h = record {
    sound = h.sound;
    covered = IsCovered-update s.requested s.calls i (reading p) h.covered tt;
  }
  Step-Inv (associate s i p fsp_id) h = record {
    sound = IsSoundIn-cons s.requested (document_of p fsp_id) s.world h.sound;
    covered =
        IsCovered-update (document_of p fsp_id ∷ s.requested) s.calls i (looking p fsp_id)
          (λ j. IsCovered-cons s.requested (document_of p fsp_id) (s.calls j) (h.covered j))
          (inl refl);
  }
  Step-Inv (disassociate s i p fsp_id) h = record {
    sound = h.sound;
    covered = IsCovered-update s.requested s.calls i (deleting p fsp_id) h.covered tt;
  }
  Step-Inv (go_on s i) h =
      let (sound, covered) = advance-IsSafe s.requested (s.calls i) s.world h.sound (h.covered i) in
      record { sound = sound; covered = IsCovered-update s.requested s.calls i _ h.covered covered }

  Reach-Inv : {s t : System st secs} → Inv s → Reach st secs s t → Inv t
  Reach-Inv h here = h
  Reach-Inv h (next r step) = Step-Inv step (Reach-Inv h r)

  -- The state that the calls start from: nothing is stored, cached or asked for.
  abbrev pub IsInitial : System st secs → Type 0
  IsInitial s =
      (docs s.world ≡ [])
      × ((k : String) → cached s.world k ≡ none)
      × (s.requested ≡ [])
      × ((i : ℕ) → s.calls i ≡ done)

  -- Where the servers behave as documented, whichever calls are made of an empty oracle, in
  -- whatever order the calls in flight go on and whichever of them reject: a lookup that has
  -- answered has answered null, or with an FSP id for which an association was asked, of a party
  -- whose cache key is that of the party looked up and whose query the associated document matches.
  pub IsAnswer-requested :
      {s t : System st secs}
      → IsInitial s
      → Reach st secs s t
      → (i : ℕ) (p : Party) (fsp_id : Nullable) → t.calls i ≡ found p fsp_id
      → IsAnswer t.requested p fsp_id
  IsAnswer-requested {s} {t} (empty, uncached, fresh, idle) reached i p fsp_id answered =
      let start : Inv s = record {
        sound = record {
          documents = subst (AllAmong s.requested) (sym empty) tt;
          entries = λ k v live. cc (uncached k);
        };
        covered = λ j. subst (IsCovered s.requested) (sym (idle j)) tt;
      } in
      subst (IsCovered t.requested) answered ((Reach-Inv start reached).covered i)
