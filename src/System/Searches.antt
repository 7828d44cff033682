-- ===== src/System/Searches.antt =====
-- The searches over all oracles of packages/domain-lib/src/aggregate.ts, behind their routes, where
-- one of the oracles is remote.
use account_lookup_bc.Prelude.{
  String, Option, none, some, Bool, true, List, [], ◌∷◌, ◌++◌, Number, ◌≡◌, refl, sym, subst, ◌⊎◌,
  inl, inr, arith, if_truthy,
}
use account_lookup_bc.Effect.{
  Error, Result, ok, err, Action, pure, ◌>>=◌, Result-cases, oracle_not_found,
  unable_to_get_oracle_associations,
}
use account_lookup_bc.Types.{Nullable, Oracle, AssociationsSearchResults}
use account_lookup_bc.Services.{OracleAdapter, Services}
use account_lookup_bc.Implementations.Remote.{HttpClient, http_oracle_provider}
use account_lookup_bc.Aggregate.Oracles.{get_oracle_adapter}
use account_lookup_bc.Aggregate.Admin.{
  State, ask_oracles, get_all_oracle_associations, get_search_keywords,
}
use account_lookup_bc.Aggregate.Answer.{IsAdapterFor, get_oracle_adapter-IsAdapterFor_iff}
use account_lookup_bc.Service.Routes.{
  SearchQuery, page_number, search_associations, list_search_keywords, failed, has_privilege,
  handle, status_or, server_error,
}
use account_lookup_bc.Service.Routes.Access.{handle_allowed}

-- The errors of the loop, which the routes answer 500.
abbrev IsReported : Error → Type 0
IsReported e = (e ≡ oracle_not_found) ⊎ (e ≡ unable_to_get_oracle_associations)

abbrev Fails : {A : Type 0} → Result A → Type 0
Fails r = (e : Error) × (r ≡ err e) × IsReported e

module _ {W : Type 0} (env : Services W) where
  module _ {A : Type 0} (adapters : List (OracleAdapter W)) (ask : OracleAdapter W → Action W A)
      (o : Oracle)
      (refused : (a : OracleAdapter W) (v v' : W)
        → IsAdapterFor env adapters o.party_type o.currency v a v'
        → (e : Error) × ((ask a v').0 ≡ err e)) where
    ask_oracles-Fails :
        (os rest : List Oracle) (start : A) (w : W)
        → Fails (ask_oracles env adapters ask (os ++ o ∷ rest) start w).0
    unfolding ask_oracles
    ask_oracles-Fails [] rest start w =
        let out = get_oracle_adapter env adapters o.party_type o.currency w in
        elim (Result-cases out.0) [
          | inl (a, found) ↦
              let (e, fails) = refused a w out.1 (
                (get_oracle_adapter-IsAdapterFor_iff env adapters o.party_type o.currency w out.1
                    a).0
                  (ground (arith, found))) in
              (unable_to_get_oracle_associations, ground (arith, found, fails), inr refl)
          | inr (x, missing) ↦ (oracle_not_found, ground (arith, missing), inl refl)
        ]
    ask_oracles-Fails (p ∷ os) rest start w =
        let out = get_oracle_adapter env adapters p.party_type p.currency w in
        elim (Result-cases out.0) [
          | inl (a, found) ↦ elim (Result-cases (ask a out.1).0) [
            | inl (r, replied) ↦
                let (e, fails, is) = ask_oracles-Fails os rest r (ask a out.1).1 in
                (e, ground (arith, found, replied, fails), is)
            | inr (x, rejected) ↦
                (unable_to_get_oracle_associations, ground (arith, found, rejected), inr refl)
          ]
          | inr (x, missing) ↦ (oracle_not_found, ground (arith, missing), inl refl)
        ]

  module _ (client : HttpClient W) (s : State W) (w : W) (os rest : List Oracle) (o : Oracle)
      (listed : env.finder.get_all_oracles s.world ≡ (ok (os ++ o ∷ rest), w))
      (remote : (a : OracleAdapter W) (v v' : W)
        → IsAdapterFor env s.adapters o.party_type o.currency v a v'
        → (r : Oracle) × (a ≡ http_oracle_provider client r)) where
    keywords-Fails : Fails (get_search_keywords env s).0
    unfolding get_search_keywords http_oracle_provider
    keywords-Fails =
        let (e, fails, is) =
          ask_oracles-Fails s.adapters (λ a. a.get_search_keywords) o
            (λ a v v' found.
              let (r, same) = remote a v v' found in
              subst (λ (x : OracleAdapter W). (e : Error) × ((x.get_search_keywords v').0 ≡ err e))
                (sym same) (_, refl))
            os rest [] w in
        (e, ground (arith, listed, fails), is)

    module _ (fsp_id party_id party_type party_sub_type currency : Nullable)
        (index size : Option Number) where
      abbrev search_in : OracleAdapter W → Action W (Option AssociationsSearchResults)
      search_in a = do
        results ←
            a.search_associations fsp_id party_id party_type party_sub_type currency index size
        pure (some results)

      associations-Fails :
          Fails
            (get_all_oracle_associations env fsp_id party_id party_type party_sub_type currency
              index size s).0
      unfolding get_all_oracle_associations http_oracle_provider
      associations-Fails =
          let (e, fails, is) =
            ask_oracles-Fails s.adapters search_in o
              (λ a v v' found.
                let (r, same) = remote a v v' found in
                subst (λ (x : OracleAdapter W). (e : Error) × ((search_in x v').0 ≡ err e))
                  (sym same) (_, refl))
              os rest none w in
          (e, ground (arith, listed, fails), is)

    reported_status : (e : Error) → IsReported e → status_or server_error e ≡ 500
    reported_status e (inl is) = ground (arith, is)
    reported_status e (inr is) = ground (arith, is)

    -- If a listed oracle is served by the HTTP adapter, whatever adapter the finder's choice for its
    -- party type and currency gives, then a valid search of all associations by a caller with the
    -- privilege is answered 500, and so are the search keywords, whatever the other oracles answer.
    pub handle_search_remote :
        (role_has_privilege : String → String → Bool) (roles : List String)
        → has_privilege role_has_privilege "ACCOUNT_LOOKUP_VIEW_ALL_ORACLE_ASSOCIATIONS" roles
          ≡ true
        → (q : SearchQuery)
        → ((handle env role_has_privilege roles true (search_associations q) s).0 ≡ failed 500)
          × ((valid : Bool)
              → (handle env role_has_privilege roles valid list_search_keywords s).0 ≡ failed 500)
    handle_search_remote role_has_privilege roles may q =
        let (e, fails, is) =
          associations-Fails (if_truthy q.fsp_id) (if_truthy q.party_id) (if_truthy q.party_type)
            (if_truthy q.party_sub_type) (if_truthy q.currency)
            (page_number q.page_index q.pageindex) (page_number q.page_size q.pagesize) in
        let (e', fails', is') = keywords-Fails in
        (
          ground (
            arith,
            handle_allowed env role_has_privilege roles true s (search_associations q) may refl,
            fails,
            reported_status e is,
          ),
          λ valid. ground (
            arith,
            handle_allowed env role_has_privilege roles valid s list_search_keywords may refl,
            fails',
            reported_status e' is',
          ),
        )
