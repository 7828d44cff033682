-- ===== src/Express.antt =====
-- The routing that both HTTP servers leave to Express: how the route tables of
-- packages/account-lookup-svc/src/routes and of packages/http-oracle-svc/src/server are read. A path
-- is cut at its slashes, without one at the end, and decoded.
use account_lookup_bc.Prelude.{
  String, Option, none, some, Bool, true, false, List, [], ◌∷◌, ◌==◌, if◌then◌else◌,
}

pub data Method : Type 0 where
  get post delete : Method

abbrev pub same_method : Method → Method → Bool
same_method get get = true
same_method post post = true
same_method delete delete = true
same_method _ _ = false

-- The shapes of the routes' paths: words, words and then `/:id`, and words and then
-- `/:partyType/:partyId`. `Q` is what a handler reads of a request, and `R` is what it serves.
pub data Route (Q R : Type 0) : Type 0 where
  fixed : Method → List String → (Q → R) → Route Q R
  with_id : Method → List String → (String → R) → Route Q R
  with_party : Method → List String → (String → String → Q → R) → Route Q R

-- `same` is how Express compares a word of a route with a part of a request's path.
module _ (same : String → String → Bool) where
  -- What is left of the path after the words.
  unfoldable pub after_words : List String → List String → Option (List String)
  after_words [] path = some path
  after_words (w ∷ words) [] = none
  after_words (w ∷ words) (part ∷ path) = if same w part then after_words words path else none

  module _ {R : Type 0} where
    abbrev pub none_left : R → Option (List String) → Option R
    none_left r (some []) = some r
    none_left r _ = none

    abbrev pub id_left : (String → R) → Option (List String) → Option R
    id_left f (some (id ∷ [])) = if id == "" then none else some (f id)
    id_left f _ = none

    abbrev pub party_left : (String → String → R) → Option (List String) → Option R
    party_left f (some (party_type ∷ (party_id ∷ []))) =
        if party_type == ""
        then none
        else if party_id == ""
        then none
        else some (f party_type party_id)
    party_left f _ = none

  module _ {Q R : Type 0} where
    unfoldable pub match_route : Method → Q → List String → Route Q R → Option R
    unfolding after_words
    match_route m q path (fixed method words f) =
        if same_method method m then none_left (f q) (after_words words path) else none
    match_route m q path (with_id method words f) =
        if same_method method m then id_left f (after_words words path) else none
    match_route m q path (with_party method words f) =
        if same_method method m then party_left (λ t i. f t i q) (after_words words path) else none

    -- The routes are tried in their order.
    unfoldable pub first_route : List (Route Q R) → Method → Q → List String → Option R
    unfolding match_route
    first_route [] m q path = none
    first_route (route ∷ routes) m q path =
        let rest = first_route routes m q path in
        elim (match_route m q path route) [ none ↦ rest | some r ↦ some r ]
