-- ===== src/Tests/Search.antt =====
-- The search of the built-in oracle on a collection in memory.
use account_lookup_bc.Prelude.{
  none, some, Bool, List, [], ◌∷◌, map, filter, ◌&&◌, ◌≡◌, refl, sym, subst, ap, arith, ℕ, Number,
  whole, not_a_number, pos, negsuc, int, ◌≤◌, ◌<◌, ◌*◌, take, drop,
}
use mathlib.Core.List.{Permᴰ}
use mathlib.Core.List.Permᴰ as Perm
use account_lookup_bc.Effect.{Result, ok, err, other}
use account_lookup_bc.Types.{Association, AssociationsSearchResults, SearchKeywords}
use account_lookup_bc.Implementations.Store.{given_eq}
use account_lookup_bc.Implementations.Builtin.Search.{
  SearchFilter, Group, SearchStore, search_filter, search_page, search_associations,
  get_search_keywords,
}
use account_lookup_bc.Implementations.Builtin.Paging.{
  SearchLaws, IsBounded, search_associations-IsBounded,
}
use account_lookup_bc.Implementations.Builtin.Pages.{IsPageOf, search_page_lem}
use account_lookup_bc.Implementations.Builtin.Keywords.{copies, IsFieldOf, get_search_keywords_lem}
use account_lookup_bc.Tests.World.{association_of}
use account_lookup_bc.Tests.Servers.{Servers}

-- The patterns are taken to be whole texts.
abbrev selects : SearchFilter → Association → Bool
selects f d =
    given_eq f.fsp_id d.fsp_id
    && (given_eq f.party_id_pattern d.party_id
        && (given_eq f.party_type d.party_type
            && (given_eq f.party_sub_type_pattern d.party_sub_type
                && given_eq f.currency d.currency)))

abbrev page : SearchFilter → Number → ℕ → Servers → Result (List Association)
page f (whole (pos n)) limit w = ok (take limit (drop n (filter (selects f) w.stored)))
page f (whole (negsuc n)) limit w = err (other "Skip value must be non-negative")
page f not_a_number limit w = err (other "Skip value must be a number")

abbrev group_of : Association → Group
group_of d = record { party_type = d.party_type; currency = d.currency; fsp_id = d.fsp_id }

abbrev pub memory_search : SearchStore Servers
memory_search = record {
  connect_mongo = λ w. (ok tt, w);
  close_mongo = λ w. (ok tt, w);
  ping = λ w. (ok tt, w);
  connect_redis = λ w. (ok tt, w);
  find_page = λ f skip limit w. (page f skip limit w, w);
  find_filtered = λ f w. (ok (filter (selects f) w.stored), w);
  groups = λ w. ((map group_of w.stored, ok tt), w);
}

page_law :
    (f : SearchFilter) (skip : Number) (limit : ℕ) (r : List Association) (w w' : Servers)
    → memory_search.find_page f skip limit w ≡ (ok r, w')
    → (n : ℕ) × (l : List Association) × (skip ≡ whole (pos n))
      × Permᴰ l (filter (selects f) w.stored)
      × (r ≡ take limit (drop n l))
      × (filter (selects f) w'.stored ≡ filter (selects f) w.stored)
page_law f (whole (pos n)) limit r w w' h = (
  n,
  filter (selects f) w.stored,
  refl,
  Perm.refl (filter (selects f) w.stored),
  ground arith,
  ap (λ o. filter (selects f) o.1.stored) (sym h),
)
page_law f (whole (negsuc n)) limit r w w' h = ground arith
page_law f not_a_number limit r w w' h = ground arith

filtered_law :
    (f : SearchFilter) (r : List Association) (w w' : Servers)
    → memory_search.find_filtered f w ≡ (ok r, w')
    → Permᴰ r (filter (selects f) w.stored)
filtered_law f r w w' h =
    subst (λ x. Permᴰ x (filter (selects f) w.stored)) (ground (arith, h))
      (Perm.refl (filter (selects f) w.stored))

abbrev memory_search_laws : SearchLaws memory_search
memory_search_laws = record {
  matching = λ f w. filter (selects f) w.stored;
  find_page_law = page_law;
  find_filtered_law = filtered_law;
}

abbrev filled : Servers
filled = record {
  stored = association_of "a" ∷ association_of "b" ∷ association_of "a" ∷ [];
  entries = λ k. none;
}

-- A page size above the limit, and a page index below zero.
search_associations-IsBounded_example :
    (r : AssociationsSearchResults) × ((search_associations memory_search
        (some "a")
        none
        none
        none
        none
        (some (whole (negsuc 3)))
        (some (whole (pos 500)))
        filled).0
      ≡ ok r)
    × IsBounded memory_search memory_search_laws r
search_associations-IsBounded_example =
    search_associations-IsBounded memory_search memory_search_laws (some "a") none none none none
      (some (negsuc 3)) (some (pos 500)) filled

abbrev anything : SearchFilter
anything = search_filter none none none none none

abbrev twenty_five : List Association
twenty_five = map association_of (
    "0" ∷ "1" ∷ "2" ∷ "3" ∷ "4" ∷ "5" ∷ "6" ∷ "7" ∷ "8" ∷ "9" ∷ "10" ∷ "11" ∷ "12" ∷ "13" ∷ "14"
    ∷ "15" ∷ "16" ∷ "17" ∷ "18" ∷ "19" ∷ "20" ∷ "21" ∷ "22" ∷ "23" ∷ "24" ∷ [])

abbrev full : Servers
full = record { stored = twenty_five; entries = λ k. none }

abbrev second_page : List Association
second_page = take 20 (drop 2 filled.stored)

search_page_lem_example :
    (r : AssociationsSearchResults) × (t : ℕ) × (l : List Association) × (search_page memory_search
        anything
        (whole (pos 1))
        (whole (pos 2))
        filled
      ≡ (ok r, filled))
    × (r.page_index ≡ whole (pos 1))
    × (r.total_pages ≡ int (pos t))
    × (3 ≤ t * 2)
    × (t * 2 < 5)
    × IsPageOf memory_search memory_search_laws anything 1 1 filled filled filled second_page
        filled.stored l r.items
search_page_lem_example =
    search_page_lem memory_search memory_search_laws anything 1 1 filled filled filled second_page
      filled.stored (refl, refl)

get_search_keywords_lem_example :
    (types : SearchKeywords) × (currencies : SearchKeywords) × (fsp_ids : SearchKeywords)
    × ((get_search_keywords memory_search filled).0
        ≡ ok (copies 3 (types ∷ currencies ∷ fsp_ids ∷ [])))
    × IsFieldOf "partyType" (some "MSISDN" ∷ some "MSISDN" ∷ some "MSISDN" ∷ []) types
    × IsFieldOf "currency" (none ∷ none ∷ none ∷ []) currencies
    × IsFieldOf "fspId" (some "a" ∷ some "b" ∷ some "a" ∷ []) fsp_ids
get_search_keywords_lem_example =
    get_search_keywords_lem memory_search filled (map group_of filled.stored) refl
