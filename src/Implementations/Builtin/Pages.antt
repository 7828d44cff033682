-- ===== src/Implementations/Builtin/Pages.antt =====
-- What a page of the built-in oracle's search shows, and how many pages there are.
use native.Mathlib.Nat.{div-add-mod', mod-lt}
use account_lookup_bc.Prelude.{
  none, List, ℕ, suc, ◌+◌, ◌*◌, ◌/◌, ◌≤◌, ◌<◌, pos, ltb, whole, times, int, length, length-Permᴰ,
  get_elem?, drop, get_elem?-take, get_elem?-drop, if◌then◌else◌, ◌≡◌, refl, ap, ◌∙◌, arith,
}
use mathlib.Core.List.{Permᴰ}
use account_lookup_bc.Effect.{ok}
use account_lookup_bc.Types.{Association, AssociationsSearchResults}
use account_lookup_bc.Implementations.Builtin.Search.{SearchFilter, SearchStore, search_page}
use account_lookup_bc.Implementations.Builtin.Paging.{SearchLaws, page_of, search_page_counted}

-- ceil(n / s) pages of s entries hold n entries, and one page less does not.
ceil_bounds : (n d : ℕ) → (n ≤ (n + d) / suc d * suc d) × ((n + d) / suc d * suc d < n + suc d)
ceil_bounds n d =
    let whole = div-add-mod' (n + d) (suc d) in
    let rest = mod-lt (n + d) {m = suc d} (omega arith) in
    (omega (arith, whole, rest), omega (arith, whole, rest))

module _ {W : Type 0} (search : SearchStore W) (laws : SearchLaws search) (f : SearchFilter)
    (p d : ℕ) (w w₁ w₂ : W) (items all : List Association) where
  open laws use {matching, find_page_law, find_filtered_law}

  -- Both calls for the page `p` of size `suc d` resolve.
  abbrev pub BothResolve : Type 0
  BothResolve =
      (search.find_page f (times (whole (pos p)) (whole (pos (suc d)))) 20 w ≡ (ok items, w₁))
      × (search.find_filtered f w₁ ≡ (ok all, w₂))

  -- What the places of a page show, for an arrangement of the entries that match.
  abbrev pub IsPageOf : List Association → List Association → Type 0
  IsPageOf l shown =
      Permᴰ l (matching f w)
      × ((j : ℕ) → get_elem? shown j ≡ (if ltb j 20 then get_elem? l (p * suc d + j) else none))

  page_items : BothResolve → (l : List Association) × IsPageOf l items
  page_items (found, counted) =
      let (n, l, skips, order, taken, still) =
        find_page_law f (times (whole (pos p)) (whole (pos (suc d)))) 20 items w w₁ found in
      (
        l,
        (
          order,
          λ j.
              ap (λ m. get_elem? m j) taken
              ∙ get_elem?-take (drop n l) 20 j
              ∙ ap (λ o. if ltb j 20 then o else none)
                  (get_elem?-drop l n j ∙ ground (arith, skips)),
        ),
      )

  -- Where the collection behaves as documented and both its calls resolve, a page `p` of a size
  -- `s` of at least 1 shows at its place `j` the entry `p * s + j` of an arrangement of all entries
  -- that match, for `j` below 20 whatever the size is, and nothing else; and the number of pages is
  -- the least that, of that size, holds all entries.
  pub search_page_lem :
      BothResolve
      → (r : AssociationsSearchResults) × (t : ℕ) × (l : List Association) × (search_page search f
            (whole (pos p))
            (whole (pos (suc d)))
            w
          ≡ (ok r, w₂))
        × (r.page_index ≡ whole (pos p))
        × (r.total_pages ≡ int (pos t))
        × (length (matching f w) ≤ t * suc d)
        × (t * suc d < length (matching f w) + suc d)
        × IsPageOf l r.items
  search_page_lem both =
      let (found, counted) = both in
      let (n, _, skips, _, taken, still) =
        find_page_law f (times (whole (pos p)) (whole (pos (suc d)))) 20 items w w₁ found in
      let size : length all ≡ length (matching f w) =
        length-Permᴰ (find_filtered_law f all w₁ w₂ counted) ∙ ap length still in
      let (enough, least) = ceil_bounds (length all) d in
      let (l, shown) = page_items both in
      let run_page : search_page search f (whole (pos p)) (whole (pos (suc d))) w
          ≡ (ok (page_of (whole (pos p)) (whole (pos (suc d))) items all), w₂) =
        search_page_counted search f (whole (pos p)) (whole (pos (suc d))) w items
          (ap (λ o. o.0) found) all
          (ap (λ v. (search.find_filtered f v).0) (ap (λ o. o.1) found) ∙ ap (λ o. o.0) counted)
        ∙ ap (λ v. (ok (page_of (whole (pos p)) (whole (pos (suc d))) items all), v))
            (ap (λ v. (search.find_filtered f v).1) (ap (λ o. o.1) found)
              ∙ ap (λ o. o.1) counted) in
      (
        page_of (whole (pos p)) (whole (pos (suc d))) items all,
        (length all + d) / suc d,
        l,
        run_page,
        refl,
        refl,
        omega (arith, enough, size),
        omega (arith, least, size),
        shown,
      )
