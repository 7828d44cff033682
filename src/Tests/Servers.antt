-- ===== src/Tests/Servers.antt =====
-- A store in memory, whose cache loses nothing, and the documented behaviour shown for it.
use account_lookup_bc.Prelude.{List, [], ◌∷◌, ◌++◌, find, ◌≡◌, sym, ap, inl, arith}
use account_lookup_bc.Effect.{Result, ok}
use account_lookup_bc.Types.{Association}
use account_lookup_bc.Implementations.Store.{
  matches, remove_first, Store, StoreLaws, Cache, Expires, set_entry, drop_entry,
}
use account_lookup_bc.Tests.Json.{read, write, read-write, write-nonempty}

pub record Servers : Type 0 where
  pub stored : List Association
  pub entries : Cache

abbrev pub memory : Store Servers
memory = record {
  find_one = λ f w. (ok (find (matches f) w.stored), w);
  insert_one = λ d w. (ok tt, record w { stored = w.stored ++ d ∷ [] });
  delete_one = λ f w. (ok tt, record w { stored = remove_first (matches f) w.stored });
  find_all = λ w. (ok w.stored, w);
  redis_get = λ k w. (ok (w.entries k), w);
  redis_setex = λ k secs v w. (ok tt, record w { entries = set_entry k v w.entries });
  redis_del = λ k w. (ok tt, record w { entries = drop_entry k w.entries });
  stringify = write;
  fsp_id_of = read;
}

pub read_law :
    {A : Type 0} (v r : A) (w w' : Servers)
    → ◌≡◌ {A = Result A × Servers} (ok v, w) (ok r, w')
    → (r ≡ v) × (w'.stored ≡ w.stored) × Expires w.entries w'.entries
read_law v r w w' h = (ground arith, ground arith, λ j. inl (ap (λ o. o.1.entries j) (sym h)))

abbrev pub memory_laws : StoreLaws memory
memory_laws = record {
  docs = λ w. w.stored;
  cached = λ w. w.entries;
  find_one_law = λ f r w w' h. read_law _ r w w' h;
  insert_one_law =
      λ d w w' h. (ap (λ o. o.1.stored) (sym h), λ j. inl (ap (λ o. o.1.entries j) (sym h)));
  delete_one_law =
      λ f w w' h. (ap (λ o. o.1.stored) (sym h), λ j. inl (ap (λ o. o.1.entries j) (sym h)));
  find_all_law = λ r w w' h. read_law _ r w w' h;
  get_law = λ k r w w' h. read_law _ r w w' h;
  setex_law =
      λ k secs v w w' h. (ap (λ o. o.1.stored) (sym h), λ j. inl (ap (λ o. o.1.entries j) (sym h)));
  del_law = λ k w w' h. (ap (λ o. o.1.stored) (sym h), λ j. inl (ap (λ o. o.1.entries j) (sym h)));
  json_law = read-write;
  json_nonempty = write-nonempty;
}
