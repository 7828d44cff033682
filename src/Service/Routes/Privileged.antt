-- ===== src/Service/Routes/Privileged.antt =====
-- The privileges that packages/domain-lib/src/privileges.ts defines, against those that the routes of
-- packages/account-lookup-svc/src/routes ask for.
use account_lookup_bc.Prelude.{String, none, some, Bool, true, List, [], ◌∷◌, ◌≡◌, refl}
use account_lookup_bc.Effect.{ok, err}
use account_lookup_bc.Services.{Services}
use account_lookup_bc.Aggregate.Admin.{State}
use account_lookup_bc.Privileges.{PrivilegeDefinition, account_lookup_privileges_definition}
use account_lookup_bc.Service.Routes.{
  Request, list_oracles, list_builtin_associations, list_search_keywords, find_oracle,
  delete_oracle, check_health, create_oracle, search_associations, look_up, Response, failed,
  has_privilege, handle,
}
use account_lookup_bc.Service.Routes.Access.{
  privilege_of, is_allowed, is_accepted, operation, status_of, handle_allowed,
}

-- A route asks for the privilege.
abbrev pub IsUsed : List PrivilegeDefinition → Type 0
IsUsed [] = Unit {0}
IsUsed (d ∷ rest) = ((r : Request) × (privilege_of r ≡ some (d.priv_id))) × IsUsed rest

module _ (role_has_privilege : String → String → Bool) (roles : List String) where
  -- The roles have all privileges of a list.
  abbrev pub HasAll : List PrivilegeDefinition → Type 0
  HasAll [] = Unit {0}
  HasAll (d ∷ rest) = (has_privilege role_has_privilege d.priv_id roles ≡ true) × HasAll rest

  all_allowed :
      HasAll account_lookup_privileges_definition
      → (r : Request) → is_allowed role_has_privilege roles r ≡ true
  unfolding account_lookup_privileges_definition
  all_allowed (view, (create, (remove, (associations, _)))) list_oracles = view
  all_allowed (view, (create, (remove, (associations, _)))) (find_oracle id) = view
  all_allowed (view, (create, (remove, (associations, _)))) (delete_oracle id) = remove
  all_allowed (view, (create, (remove, (associations, _)))) (create_oracle dto) = create
  all_allowed (view, (create, (remove, (associations, _)))) (check_health id) = refl
  all_allowed (view, (create, (remove, (associations, _)))) list_builtin_associations = associations
  all_allowed (view, (create, (remove, (associations, _)))) list_search_keywords = associations
  all_allowed (view, (create, (remove, (associations, _)))) (search_associations q) = associations
  all_allowed (view, (create, (remove, (associations, _)))) (look_up p) = associations

  -- What the aggregate's call behind a route resolves to, or the status for what it rejects with.
  abbrev pub outcome_of : {W : Type 0} → Services W → Bool → Request → State W → Response × State W
  outcome_of env valid r s = elim (operation env role_has_privilege roles valid s r s).0 [
    | ok response ↦ (response, (operation env role_has_privilege roles valid s r s).1)
    | err e ↦ (
      failed (status_of env role_has_privilege roles valid s r e),
      (operation env role_has_privilege roles valid s r s).1,
    )
  ]

  -- The service defines every privilege that its routes ask for: a caller whose roles have all
  -- defined privileges gets the outcome of the aggregate's call from every route, for every valid
  -- request.
  pub handle_privileged :
      {W : Type 0} (env : Services W) (valid : Bool) (s : State W) (r : Request)
      → HasAll account_lookup_privileges_definition
      → is_accepted env role_has_privilege roles valid s r ≡ true
      → handle env role_has_privilege roles valid r s ≡ outcome_of env valid r s
  handle_privileged env valid s r all accepted =
      handle_allowed env role_has_privilege roles valid s r (all_allowed all r) accepted

-- No privilege is defined that no route asks for.
pub definition-IsUsed : IsUsed account_lookup_privileges_definition
unfolding account_lookup_privileges_definition
definition-IsUsed = (
  (list_oracles, refl),
  (
    (
      create_oracle (record {
        id = none;
        name = "";
        oracle_type = "";
        party_type = none;
        currency = none;
        endpoint = none;
      }),
      refl,
    ),
    ((delete_oracle "", refl), ((list_search_keywords, refl), tt)),
  ),
)
