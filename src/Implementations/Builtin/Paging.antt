-- ===== src/Implementations/Builtin/Paging.antt =====
-- The bounds of a page of the built-in oracle's search, and what it holds.
use account_lookup_bc.Prelude.{
  Option, none, some, refl, true, List, ℕ, ◌≤◌, ℤ, pos, negsuc, Number, whole, not_a_number, int,
  nan, ◌⊎◌, leb_number, times, min_number, max_number, ceil_div, length, take, drop, length-take,
  ◌≡◌, ap, inl, inr, arith,
}
use mathlib.Core.List.{Permᴰ}
use account_lookup_bc.Effect.{Error, Result, ok, err, Result-cases}
use account_lookup_bc.Types.{Nullable, Association, AssociationsSearchResults}
use account_lookup_bc.Implementations.Builtin.Search.{
  SearchFilter, SearchStore, max_entries_per_page, search_filter, or_default, empty_results,
  search_page, search_associations,
}

-- The documented behaviour of `find`, for the calls that resolve: `matching` are the documents that
-- a filter selects, and no order of theirs is promised, for the sort is by `updatedAt`, a field that
-- no stored document has. A number to skip that is negative is refused.
pub record SearchLaws {W : Type 0} (search : SearchStore W) : Type 0 where
  pub matching : SearchFilter → W → List Association
  pub find_page_law :
      (f : SearchFilter) (skip : Number) (limit : ℕ) (r : List Association) (w w' : W)
      → search.find_page f skip limit w ≡ (ok r, w')
      → (n : ℕ) × (l : List Association) × (skip ≡ whole (pos n))
        × Permᴰ l (matching f w)
        × (r ≡ take limit (drop n l))
        × (matching f w' ≡ matching f w)
  pub find_filtered_law :
      (f : SearchFilter) (r : List Association) (w w' : W)
      → search.find_filtered f w ≡ (ok r, w')
      → Permᴰ r (matching f w)

-- The answer where both calls resolve.
abbrev pub page_of :
    Number → Number → List Association → List Association → AssociationsSearchResults
page_of index size items all = record {
  page_size = max_number size (whole (pos (length items)));
  total_pages = ceil_div (length all) size;
  page_index = index;
  items = items;
}

module _ {W : Type 0} (search : SearchStore W) (f : SearchFilter) (index size : Number)
    (w : W) where
  abbrev found : Result (List Association) × W
  found = search.find_page f (times index size) 20 w

  search_page_failed :
      (e : Error)
      → found.0 ≡ err e
      → search_page search f index size w ≡ (ok (empty_results index size), found.1)
  unfolding search_page
  search_page_failed e failed = ground (arith, failed)

  module _ (items : List Association) (is : found.0 ≡ ok items) where
    search_page_uncounted :
        (e : Error)
        → (search.find_filtered f found.1).0 ≡ err e
        → search_page search f index size w ≡ (
          ok (record (empty_results index size) { items = items }),
          (search.find_filtered f found.1).1,
        )
    unfolding search_page
    search_page_uncounted e failed = ground (arith, is, failed)

    pub search_page_counted :
        (all : List Association)
        → (search.find_filtered f found.1).0 ≡ ok all
        → search_page search f index size w
          ≡ (ok (page_of index size items all), (search.find_filtered f found.1).1)
    unfolding search_page
    search_page_counted all counted = ground (arith, is, counted)

module _ {W : Type 0} (search : SearchStore W) (laws : SearchLaws search) where
  open laws use {matching, find_page_law, find_filtered_law}

  -- What holds of every answer, those of failing searches included.
  pub record IsBounded (r : AssociationsSearchResults) : Type 0 where
    pub index_natural : leb_number (whole (pos 0)) r.page_index ≡ true
    pub size_bounded : leb_number r.page_size max_entries_per_page ≡ true
    pub few_items : length r.items ≤ 20

  abbrev Answered : Result AssociationsSearchResults → Type 0
  Answered outcome = (r : AssociationsSearchResults) × (outcome ≡ ok r) × IsBounded r

  size_with_items :
      (size : Number) (n : ℕ)
      → leb_number size max_entries_per_page ≡ true
      → n ≤ 20
      → leb_number (max_number size (whole (pos n))) max_entries_per_page ≡ true
  size_with_items (whole (pos m)) n h few = ground arith
  size_with_items (whole (negsuc m)) n h few = ground arith
  size_with_items not_a_number n h few = cc

  search_page-Answered :
      (f : SearchFilter) (index size : Number) (w : W)
      → leb_number (whole (pos 0)) index ≡ true
      → leb_number size max_entries_per_page ≡ true
      → Answered (search_page search f index size w).0
  search_page-Answered f index size w natural small =
      elim (Result-cases (found search f index size w).0) [
        | inr (e, failed) ↦ (
          empty_results index size,
          ap (λ o. o.0) (search_page_failed search f index size w e failed),
          record { index_natural = natural; size_bounded = small; few_items = omega arith },
        )
        | inl (items, is) ↦
            let w₁ = (found search f index size w).1 in
            let (n, l, skips, order, taken, still) =
              find_page_law f (times index size) 20 items w w₁ (ground (arith, is)) in
            let few : length items ≤ 20 =
              omega (arith, ap length taken, length-take 20 (drop n l)) in
            elim (Result-cases (search.find_filtered f w₁).0) [
              | inr (e, failed) ↦ (
                record (empty_results index size) { items = items },
                ap (λ o. o.0) (search_page_uncounted search f index size w items is e failed),
                record { index_natural = natural; size_bounded = small; few_items = few },
              )
              | inl (all, counted) ↦ (
                page_of index size items all,
                ap (λ o. o.0) (search_page_counted search f index size w items is all counted),
                record {
                  index_natural = natural;
                  size_bounded = size_with_items size (length items) small few;
                  few_items = few;
                },
              )
            ]
      ]

  index_bound : (n : ℤ) → leb_number (whole (pos 0)) (max_number (whole n) (whole (pos 0))) ≡ true
  index_bound (pos n) = ground arith
  index_bound (negsuc n) = ground arith

  size_bound :
      (n : ℤ) → leb_number (min_number (whole n) max_entries_per_page) max_entries_per_page ≡ true
  size_bound (pos n) = ground arith
  size_bound (negsuc n) = ground arith

  -- A page number that is left out, or an integer.
  abbrev pub given : Option ℤ → Option Number
  given none = none
  given (some n) = some (whole n)

  given_index :
      (o : Option ℤ)
      → leb_number
          (whole (pos 0))
          (max_number (or_default (given o) (whole (pos 0))) (whole (pos 0)))
        ≡ true
  given_index none = refl
  given_index (some n) = index_bound n

  given_size :
      (o : Option ℤ)
      → leb_number
          (min_number (or_default (given o) max_entries_per_page) max_entries_per_page)
          max_entries_per_page
        ≡ true
  given_size none = refl
  given_size (some n) = size_bound n

  -- Where the collection behaves as documented, `searchAssociations` resolves for every page index
  -- and size that are integers or left out, and whatever fails: its page index is not negative, its
  -- page size is at most 100, and it has at most 20 items.
  pub search_associations-IsBounded :
      (fsp_id party_id party_type party_sub_type currency : Nullable) (index size : Option ℤ)
      (w : W)
      → (r : AssociationsSearchResults) × ((search_associations search fsp_id party_id party_type
            party_sub_type currency
            (given index)
            (given size)
            w).0
          ≡ ok r)
        × IsBounded r
  unfolding search_associations
  search_associations-IsBounded fsp_id party_id party_type party_sub_type currency index size w =
      search_page-Answered (search_filter fsp_id party_id party_type party_sub_type currency)
        (max_number (or_default (given index) (whole (pos 0))) (whole (pos 0)))
        (min_number (or_default (given size) max_entries_per_page) max_entries_per_page) w
        (given_index index) (given_size size)

module _ {W : Type 0} (search : SearchStore W) where
  search_page_nan :
      (f : SearchFilter) (index : Number) (w : W)
      → (r : AssociationsSearchResults) × ((search_page search f index not_a_number w).0 ≡ ok r)
        × (r.page_size ≡ not_a_number)
        × ((r.total_pages ≡ nan) ⊎ (r.total_pages ≡ int (pos 0)))
  search_page_nan f index w = elim (Result-cases (found search f index not_a_number w).0) [
    | inr (e, failed) ↦ (
      empty_results index not_a_number,
      ap (λ o. o.0) (search_page_failed search f index not_a_number w e failed),
      refl,
      inr refl,
    )
    | inl (items, is) ↦
        let w₁ = (found search f index not_a_number w).1 in
        elim (Result-cases (search.find_filtered f w₁).0) [
          | inr (e, failed) ↦ (
            record (empty_results index not_a_number) { items = items },
            ap (λ o. o.0) (search_page_uncounted search f index not_a_number w items is e failed),
            refl,
            inr refl,
          )
          | inl (all, counted) ↦ (
            page_of index not_a_number items all,
            ap (λ o. o.0) (search_page_counted search f index not_a_number w items is all counted),
            refl,
            inl refl,
          )
        ]
  ]

  -- The bounds do not hold a page size that is not a number: whatever the collection does and
  -- whatever else is asked, `searchAssociations` resolves with the page size NaN, and with NaN pages
  -- or none.
  pub search_associations_nan :
      (fsp_id party_id party_type party_sub_type currency : Nullable) (index : Option Number)
      (w : W)
      → (r : AssociationsSearchResults) × ((search_associations search fsp_id party_id party_type
            party_sub_type currency index
            (some not_a_number)
            w).0
          ≡ ok r)
        × (r.page_size ≡ not_a_number)
        × ((r.total_pages ≡ nan) ⊎ (r.total_pages ≡ int (pos 0)))
  unfolding search_associations
  search_associations_nan fsp_id party_id party_type party_sub_type currency index w =
      search_page_nan (search_filter fsp_id party_id party_type party_sub_type currency)
        (max_number (or_default index (whole (pos 0))) (whole (pos 0))) w
