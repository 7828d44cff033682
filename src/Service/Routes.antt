-- ===== src/Service/Routes.antt =====
-- The HTTP routes of packages/account-lookup-svc/src/routes: oracle_admin_routes.ts,
-- account_lookup_routes.ts, and what they share from base/base_routes.ts. A request arrives with the
-- roles of its caller and the verdict of express-validator.
pub mod Access
pub mod Privileged
use account_lookup_bc.Prelude.{
  String, Option, none, some, Bool, true, false, List, [], ◌∷◌, ℕ, Number, parse_int, is_truthy,
  ◌==◌, if_truthy, if◌then◌else◌,
}
use account_lookup_bc.Effect.{
  Error, Result, ok, err, Action, pure, guard, ◌>>=◌, ◌>>◌, oracle_not_found, participant_not_found,
  unauthorized, forbidden,
}
use account_lookup_bc.Types.{
  Nullable, Oracle, AddOracleDto, Association, ParticipantLookup, AssociationsSearchResults,
  SearchKeywords,
}
use account_lookup_bc.Services.{Services}
use account_lookup_bc.Aggregate.Admin.{
  State, add_oracle, remove_oracle, get_all_oracles, get_oracle_by_id, health_check,
  get_builtin_oracle_associations, get_all_oracle_associations, get_search_keywords,
  get_account_lookup,
}

-- The query of a search. The page index and size may be spelled in two ways.
pub record SearchQuery : Type 0 where
  pub fsp_id : Nullable
  pub party_id : Nullable
  pub party_type : Nullable
  pub party_sub_type : Nullable
  pub currency : Nullable
  pub page_index : Nullable
  pub pageindex : Nullable
  pub page_size : Nullable
  pub pagesize : Nullable

-- One constructor for each route, with what the handler reads from the request.
pub data Request : Type 0 where
  list_oracles list_builtin_associations list_search_keywords : Request
  find_oracle delete_oracle check_health : String → Request
  create_oracle : AddOracleDto → Request
  search_associations : SearchQuery → Request
  look_up : ParticipantLookup → Request

-- What `res.send` is called with.
pub data Body : Type 0 where
  oracles : List Oracle → Body
  oracle : Oracle → Body
  deleted : Body
  created : String → Body
  health : Bool → Body
  associations : List Association → Body
  found_associations : Option AssociationsSearchResults → Body
  keywords : List SearchKeywords → Body
  fsp : String → Body

-- `res.send(body)`, or `res.status(code).json(…)` with an error.
pub data Response : Type 0 where
  sent : Body → Response
  failed : ℕ → Response

-- `_enforcePrivilege`
unfoldable pub has_privilege : (String → String → Bool) → String → List String → Bool
has_privilege role_has_privilege privilege [] = false
has_privilege role_has_privilege privilege (role ∷ rest) =
    if role_has_privilege role privilege
    then true
    else has_privilege role_has_privilege privilege rest

abbrev pub enforce_privilege :
    {S : Type 0} → (String → String → Bool) → List String → String → Action S (Unit {0})
enforce_privilege role_has_privilege roles privilege =
    guard (has_privilege role_has_privilege privilege roles) forbidden

-- `_handleUnauthorizedError` first, and then the rest of a `catch`
abbrev pub status_or : (Error → ℕ) → Error → ℕ
status_or rest unauthorized = 401
status_or rest forbidden = 403
status_or rest e = rest e

abbrev pub server_error : Error → ℕ
server_error e = 500

abbrev pub oracle_missing : Error → ℕ
oracle_missing oracle_not_found = 404
oracle_missing e = 500

abbrev pub participant_missing : Error → ℕ
participant_missing participant_not_found = 404
participant_missing e = 500

-- `try { … } catch (err) { … }` around the handler's own part
abbrev pub respond : {S : Type 0} → (Error → ℕ) → Action S Response → S → Response × S
respond rest m s =
    let (r, s') = m s in
    elim r [ ok response ↦ (response, s') | err e ↦ (failed (status_or rest e), s') ]

-- `if (!this.validateRequest(req, res)) return;`
abbrev pub if_valid : {S : Type 0} → Bool → Action S Response → Action S Response
if_valid valid m = if valid then m else pure (failed 422)

-- `a || b`, and then `parseInt` of a text that is there and not empty
unfoldable pub page_number : Nullable → Nullable → Option Number
unfolding parse_int
page_number a b =
    let text = if is_truthy a then a else b in
    elim text [ none ↦ none | some t ↦ if t == "" then none else some (parse_int t) ]

abbrev pub oracle_or_404 : Option Oracle → Response
oracle_or_404 none = failed 404
oracle_or_404 (some o) = sent (oracle o)

module _ {W : Type 0} (env : Services W) (role_has_privilege : String → String → Bool)
    (roles : List String) (valid : Bool) where
  abbrev enforce : String → Action (State W) (Unit {0})
  enforce privilege = enforce_privilege role_has_privilege roles privilege

  -- `getAllOracleAssociations`
  abbrev handle_search : SearchQuery → State W → Response × State W
  handle_search q = respond server_error (do
    enforce "ACCOUNT_LOOKUP_VIEW_ALL_ORACLE_ASSOCIATIONS"
    if_valid valid (do
      found ←
          get_all_oracle_associations env (if_truthy q.fsp_id) (if_truthy q.party_id)
            (if_truthy q.party_type) (if_truthy q.party_sub_type) (if_truthy q.currency)
            (page_number q.page_index q.pageindex) (page_number q.page_size q.pagesize)
      pure (sent (found_associations found))))

  -- `_getSearchKeywords`, which does not look at the verdict
  abbrev handle_keywords : State W → Response × State W
  handle_keywords = respond server_error (do
    enforce "ACCOUNT_LOOKUP_VIEW_ALL_ORACLE_ASSOCIATIONS"
    words ← get_search_keywords env
    pure (sent (keywords words)))

  -- The handlers
  unfoldable pub handle : Request → State W → Response × State W
  handle list_oracles = respond server_error (do
    enforce "ACCOUNT_LOOKUP_VIEW_ALL_ORACLES"
    if_valid valid (do l ← get_all_oracles env; pure (sent (oracles l))))
  handle list_builtin_associations = respond server_error (do
    enforce "ACCOUNT_LOOKUP_VIEW_ALL_ORACLE_ASSOCIATIONS"
    if_valid valid (do l ← get_builtin_oracle_associations env; pure (sent (associations l))))
  handle (find_oracle id) = respond server_error (do
    enforce "ACCOUNT_LOOKUP_VIEW_ALL_ORACLES"
    if_valid valid (do found ← get_oracle_by_id env id; pure (oracle_or_404 found)))
  handle (delete_oracle id) = respond oracle_missing (do
    enforce "ACCOUNT_LOOKUP_REMOVE_ORACLE"
    if_valid valid (do remove_oracle env id; pure (sent deleted)))
  handle (create_oracle dto) = respond server_error (do
    enforce "ACCOUNT_LOOKUP_CREATE_ORACLE"
    if_valid valid (do id ← add_oracle env dto; pure (sent (created id))))
  handle (check_health id) =
      respond oracle_missing
        (if_valid valid (do healthy ← health_check env id; pure (sent (health healthy))))
  handle (search_associations q) = handle_search q
  handle list_search_keywords = handle_keywords
  handle (look_up p) = respond participant_missing (do
    enforce "ACCOUNT_LOOKUP_VIEW_ALL_ORACLE_ASSOCIATIONS"
    if_valid valid (do fsp_id ← get_account_lookup env p; pure (sent (fsp fsp_id))))
