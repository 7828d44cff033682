-- ===== src/Implementations/Builtin/Search.antt =====
-- The paged search, the search keywords, and the connections of the built-in oracle:
-- packages/implementations-lib/src/oracles/adapters/builtin/mongo_oracleprovider.ts.
use account_lookup_bc.Prelude.{
  String, Option, none, some, Bool, true, false, List, [], ◌∷◌, ◌++◌, map, ℕ, Number, whole, pos,
  times, min_number, max_number, int, ceil_div, length, if_truthy, nullable_eq, if◌then◌else◌,
}
use account_lookup_bc.Effect.{
  Result, ok, err, Action, pure, attempt, or_throw, ◌>>=◌, ◌>>◌, unable_to_init_oracle_provider,
  unable_to_close_database_connection, unable_to_get_associations,
}
use account_lookup_bc.Types.{Nullable, Association, AssociationsSearchResults, SearchKeywords}

-- The conditions of the filter that are there: the FSP id, the party type and the currency are
-- compared, the party id and the sub type are regular expressions without regard to case.
pub record SearchFilter : Type 0 where
  pub fsp_id : Nullable
  pub party_id_pattern : Nullable
  pub party_type : Nullable
  pub party_sub_type_pattern : Nullable
  pub currency : Nullable

-- `_id` of a group of the aggregation
pub record Group : Type 0 where
  pub party_type : Nullable
  pub currency : Nullable
  pub fsp_id : Nullable

-- The other calls of the two servers. `find_page` has the filter, the number of documents to skip
-- and the limit; `groups` gives the groups that the cursor yields before it ends or fails.
pub record SearchStore (W : Type 0) : Type 0 where
  pub connect_mongo : Action W (Unit {0})
  pub close_mongo : Action W (Unit {0})
  pub ping : Action W (Unit {0})
  pub connect_redis : Action W (Unit {0})
  pub find_page : SearchFilter → Number → ℕ → Action W (List Association)
  pub find_filtered : SearchFilter → Action W (List Association)
  pub groups : W → (List Group × Result (Unit {0})) × W

abbrev pub max_entries_per_page : Number
max_entries_per_page = whole (pos 100)

-- `filter`
abbrev pub search_filter : Nullable → Nullable → Nullable → Nullable → Nullable → SearchFilter
search_filter fsp_id party_id party_type party_sub_type currency = record {
  fsp_id = if_truthy fsp_id;
  party_id_pattern = if_truthy party_id;
  party_type = if_truthy party_type;
  party_sub_type_pattern = if_truthy party_sub_type;
  currency = if_truthy currency;
}

abbrev pub or_default : Option Number → Number → Number
or_default none d = d
or_default (some n) d = n

-- `searchResults` before the collection is asked
abbrev pub empty_results : Number → Number → AssociationsSearchResults
empty_results page_index page_size = record {
  page_size = page_size;
  total_pages = int (pos 0);
  page_index = page_index;
  items = [];
}

-- `distinctTerms`, with `includes` before each `push`
abbrev pub includes : List Nullable → Nullable → Bool
includes [] v = false
includes (x ∷ l) v = if nullable_eq x v then true else includes l v

unfoldable pub add_terms : List Nullable → List Nullable → List Nullable
add_terms terms [] = terms
add_terms terms (v ∷ rest) =
    if includes terms v then add_terms terms rest else add_terms (terms ++ v ∷ []) rest

abbrev pub keywords_of : String → List Nullable → SearchKeywords
keywords_of name values = record { field_name = name; distinct_terms = add_terms [] values }

-- The same three objects are pushed for each group, and hold all the terms in the end.
unfoldable pub push_keywords : List Group → List SearchKeywords → List SearchKeywords
push_keywords [] fields = []
push_keywords (g ∷ rest) fields = fields ++ push_keywords rest fields

abbrev pub three_fields : List Group → List SearchKeywords
three_fields gs =
    keywords_of "partyType" (map (λ (g : Group). g.party_type) gs)
    ∷ keywords_of "currency" (map (λ (g : Group). g.currency) gs)
    ∷ keywords_of "fspId" (map (λ (g : Group). g.fsp_id) gs)
    ∷ []

module _ {W : Type 0} (search : SearchStore W) where
  -- `init`; a failure of the cache is thrown as it is
  unfoldable pub init : Action W (Unit {0})
  init = or_throw search.connect_mongo unable_to_init_oracle_provider >> search.connect_redis

  -- `destroy`
  unfoldable pub destroy : Action W (Unit {0})
  destroy = or_throw search.close_mongo unable_to_close_database_connection

  -- `healthCheck`: what the `catch` of the ping returns is not used
  unfoldable pub health_check : Action W Bool
  health_check = attempt search.ping >> pure true

  -- The `try` of `searchAssociations`, on the bounded page index and size. It keeps the items
  -- where only the second call fails.
  unfoldable pub search_page : SearchFilter → Number → Number → Action W AssociationsSearchResults
  search_page filter page_index page_size = do
    found ← attempt (
        or_throw (search.find_page filter (times page_index page_size) 20)
          unable_to_get_associations)
    elim found [
      | err _ ↦ pure (empty_results page_index page_size)
      | ok items ↦ do
        entries ← attempt (or_throw (search.find_filtered filter) unable_to_get_associations)
        pure (elim entries [
          | err _ ↦ record (empty_results page_index page_size) { items = items }
          | ok all ↦ record {
            page_size = max_number page_size (whole (pos (length items)));
            total_pages = ceil_div (length all) page_size;
            page_index = page_index;
            items = items;
          }
        ])
    ]

  -- `searchAssociations`
  unfoldable pub search_associations :
      Nullable
      → Nullable
      → Nullable
      → Nullable
      → Nullable
      → Option Number
      → Option Number
      → Action W AssociationsSearchResults
  search_associations fsp_id party_id party_type party_sub_type currency page_index page_size =
      search_page (search_filter fsp_id party_id party_type party_sub_type currency)
        (max_number (or_default page_index (whole (pos 0))) (whole (pos 0)))
        (min_number (or_default page_size max_entries_per_page) max_entries_per_page)

  -- `getSearchKeywords`; a failing cursor leaves what was pushed before
  unfoldable pub get_search_keywords : Action W (List SearchKeywords)
  get_search_keywords w =
      let ((gs, ended), w') = search.groups w in (ok (push_keywords gs (three_fields gs)), w')
