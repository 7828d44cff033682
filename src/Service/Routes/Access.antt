-- ===== src/Service/Routes/Access.antt =====
-- Which requests the routes of packages/account-lookup-svc/src/routes let through, and how they
-- answer.
use account_lookup_bc.Prelude.{
  String, Option, none, some, Bool, true, false, List, ℕ, ◌≡◌, refl, ◌↔◌, inl, inr, arith,
  Bool-cases, if_truthy,
}
use account_lookup_bc.Effect.{
  Error, ok, err, Action, Result-cases, participant_not_found, pure, ◌>>=◌, ◌>>◌,
}
use account_lookup_bc.Types.{ParticipantLookup}
use account_lookup_bc.Services.{Services}
use account_lookup_bc.Aggregate.Admin.{
  State, add_oracle, remove_oracle, get_all_oracles, get_oracle_by_id, health_check,
  get_builtin_oracle_associations, get_all_oracle_associations, get_search_keywords,
  get_account_lookup,
}
use account_lookup_bc.Service.Routes.{
  Request, list_oracles, list_builtin_associations, list_search_keywords, find_oracle,
  delete_oracle, check_health, create_oracle, search_associations, page_number, look_up, Response,
  sent, failed, Body, oracles, deleted, created, health, associations, found_associations, keywords,
  fsp, oracle_or_404, status_or, server_error, oracle_missing, participant_missing, has_privilege,
  handle,
}

-- The privilege that a route asks for; the health check asks for none.
abbrev pub privilege_of : Request → Option String
privilege_of list_oracles = some "ACCOUNT_LOOKUP_VIEW_ALL_ORACLES"
privilege_of (find_oracle _) = some "ACCOUNT_LOOKUP_VIEW_ALL_ORACLES"
privilege_of (delete_oracle _) = some "ACCOUNT_LOOKUP_REMOVE_ORACLE"
privilege_of (create_oracle _) = some "ACCOUNT_LOOKUP_CREATE_ORACLE"
privilege_of (check_health _) = none
privilege_of _ = some "ACCOUNT_LOOKUP_VIEW_ALL_ORACLE_ASSOCIATIONS"

-- The caller has the privilege under one of its roles, or none is asked for.
abbrev pub is_allowed : (String → String → Bool) → List String → Request → Bool
is_allowed role_has_privilege roles r = elim (privilege_of r) [
  | none ↦ true
  | some privilege ↦ has_privilege role_has_privilege privilege roles
]

missing_status : (e : Error) → status_or participant_missing e ≡ 404 → e ≡ participant_not_found
missing_status participant_not_found h = refl
missing_status _ h = absurd (omega arith)

module _ {W : Type 0} (env : Services W) (role_has_privilege : String → String → Bool)
    (roles : List String) (valid : Bool) (s : State W) where
  -- Where a route asks for a privilege that none of the caller's roles has, the answer is 403, and
  -- neither the aggregate nor the services behind it are touched.
  pub handle_forbidden :
      (r : Request)
      → is_allowed role_has_privilege roles r ≡ false
      → handle env role_has_privilege roles valid r s ≡ (failed 403, s)
  unfolding handle
  handle_forbidden list_oracles refused = ground (arith, refused)
  handle_forbidden (check_health id) refused = cc
  handle_forbidden (find_oracle id) refused = ground (arith, refused)
  handle_forbidden (delete_oracle id) refused = ground (arith, refused)
  handle_forbidden (create_oracle dto) refused = ground (arith, refused)
  handle_forbidden _ refused = ground (arith, refused)

  -- The call of the aggregate behind a route, and the answer to what it resolves to.
  abbrev pub operation : Request → Action (State W) Response
  operation list_oracles = do l ← get_all_oracles env; pure (sent (oracles l))
  operation list_builtin_associations = do
    l ← get_builtin_oracle_associations env
    pure (sent (associations l))
  operation list_search_keywords = do words ← get_search_keywords env; pure (sent (keywords words))
  operation (find_oracle id) = do found ← get_oracle_by_id env id; pure (oracle_or_404 found)
  operation (delete_oracle id) = do remove_oracle env id; pure (sent deleted)
  operation (check_health id) = do healthy ← health_check env id; pure (sent (health healthy))
  operation (create_oracle dto) = do id ← add_oracle env dto; pure (sent (created id))
  operation (search_associations q) = do
    found ←
        get_all_oracle_associations env (if_truthy q.fsp_id) (if_truthy q.party_id)
          (if_truthy q.party_type) (if_truthy q.party_sub_type) (if_truthy q.currency)
          (page_number q.page_index q.pageindex) (page_number q.page_size q.pagesize)
    pure (sent (found_associations found))
  operation (look_up p) = do fsp_id ← get_account_lookup env p; pure (sent (fsp fsp_id))

  -- The search keywords are the only route that does not look at the verdict.
  abbrev pub is_accepted : Request → Bool
  is_accepted list_search_keywords = true
  is_accepted _ = valid

  -- The statuses that a route gives to the errors of its call.
  abbrev pub status_of : Request → Error → ℕ
  status_of (delete_oracle id) = status_or oracle_missing
  status_of (check_health id) = status_or oracle_missing
  status_of (look_up p) = status_or participant_missing
  status_of _ = status_or server_error

  abbrev pub IsHandled : Request → Type 0
  IsHandled r =
      is_allowed role_has_privilege roles r ≡ true
      → is_accepted r ≡ true
      → handle env role_has_privilege roles valid r s ≡ elim (operation r s).0 [
        | ok response ↦ (response, (operation r s).1)
        | err e ↦ (failed (status_of r e), (operation r s).1)
      ]

  pub handle_allowed : (r : Request) → IsHandled r
  unfolding handle
  handle_allowed list_oracles may good = ground (arith, may, good)
  handle_allowed list_builtin_associations may good = ground (arith, may, good)
  handle_allowed list_search_keywords may good = ground (arith, may, good)
  handle_allowed (find_oracle id) may good = ground (arith, may, good)
  handle_allowed (delete_oracle id) may good = ground (arith, may, good)
  handle_allowed (check_health id) may good = ground (arith, may, good)
  handle_allowed (create_oracle dto) may good = ground (arith, may, good)
  handle_allowed (search_associations q) may good = ground (arith, may, good)
  handle_allowed (look_up p) may good = ground (arith, may, good)

  handle_invalid :
      (r : Request)
      → is_allowed role_has_privilege roles r ≡ true
      → is_accepted r ≡ false
      → handle env role_has_privilege roles valid r s ≡ (failed 422, s)
  unfolding handle
  handle_invalid list_search_keywords may bad = cc
  handle_invalid (check_health id) may bad = ground (arith, may, bad)
  handle_invalid (delete_oracle id) may bad = ground (arith, may, bad)
  handle_invalid (look_up p) may bad = ground (arith, may, bad)
  handle_invalid (find_oracle id) may bad = ground (arith, may, bad)
  handle_invalid (create_oracle dto) may bad = ground (arith, may, bad)
  handle_invalid list_oracles may bad = ground (arith, may, bad)
  handle_invalid list_builtin_associations may bad = ground (arith, may, bad)
  handle_invalid (search_associations q) may bad = ground (arith, may, bad)

  -- A body is sent only to a caller who has the privilege that the route asks for, and whose
  -- request is valid where the route looks at that, and it is the body that the aggregate's call
  -- resolves to.
  pub handle_sent :
      (r : Request) (b : Body) (s' : State W)
      → handle env role_has_privilege roles valid r s ≡ (sent b, s')
      → (is_allowed role_has_privilege roles r ≡ true)
        × (is_accepted r ≡ true)
        × (operation r s ≡ (ok (sent b), s'))
  handle_sent r b s' h = elim (Bool-cases (is_allowed role_has_privilege roles r)) [
    | inr refused ↦ ground (arith, handle_forbidden r refused)
    | inl may ↦ elim (Bool-cases (is_accepted r)) [
      | inr bad ↦ ground (arith, handle_invalid r may bad)
      | inl good ↦ elim (Result-cases (operation r s).0) [
        | inl (response, done) ↦ (may, good, ground (arith, handle_allowed r may good, done))
        | inr (e, rejected) ↦ ground (arith, handle_allowed r may good, rejected)
      ]
    ]
  ]

  -- A valid lookup by a caller who has the privilege is answered 404 exactly when the aggregate's
  -- lookup rejects with ParticipantNotFoundError.
  pub handle_look_up_missing_iff :
      (p : ParticipantLookup) (s' : State W)
      → is_allowed role_has_privilege roles (look_up p) ≡ true
      → valid ≡ true
      → (handle env role_has_privilege roles valid (look_up p) s ≡ (failed 404, s'))
        ↔ (get_account_lookup env p s ≡ (err participant_not_found, s'))
  handle_look_up_missing_iff p s' may good = (
    (λ h.
        let out = get_account_lookup env p s in
        elim (Result-cases out.0) [
          | inl (id, found) ↦ ground (arith, handle_allowed (look_up p) may good, found)
          | inr (e, rejected) ↦
              let is =
                missing_status e (ground (arith, handle_allowed (look_up p) may good, rejected)) in
              ground (arith, handle_allowed (look_up p) may good, rejected, is)
        ]),
    λ h. ground (arith, handle_allowed (look_up p) may good, h),
  )
