-- ===== src/Privileges.antt =====
-- The privileges that the service defines: packages/domain-lib/src/privileges.ts.
use account_lookup_bc.Prelude.{String, List, [], ◌∷◌}

pub data AccountLookupPrivileges : Type 0 where
  view_all_oracles create_oracle remove_oracle : AccountLookupPrivileges
  view_all_oracle_associations : AccountLookupPrivileges

-- The text of a member of the enumeration.
abbrev pub privilege_text : AccountLookupPrivileges → String
privilege_text view_all_oracles = "ACCOUNT_LOOKUP_VIEW_ALL_ORACLES"
privilege_text create_oracle = "ACCOUNT_LOOKUP_CREATE_ORACLE"
privilege_text remove_oracle = "ACCOUNT_LOOKUP_REMOVE_ORACLE"
privilege_text view_all_oracle_associations = "ACCOUNT_LOOKUP_VIEW_ALL_ORACLE_ASSOCIATIONS"

pub record PrivilegeDefinition : Type 0 where
  pub priv_id : String
  pub label_name : String
  pub description : String

abbrev definition : AccountLookupPrivileges → String → String → PrivilegeDefinition
definition privilege label_name description = record {
  priv_id = privilege_text privilege;
  label_name = label_name;
  description = description;
}

unfoldable pub account_lookup_privileges_definition : List PrivilegeDefinition
account_lookup_privileges_definition =
    definition view_all_oracles "View All Oracles" "Allows for the retrieval of any oracles"
    ∷ definition create_oracle "Register new Oracles in the system"
        "Allows for the creation of an oracle"
    ∷ definition remove_oracle "Remove existing Oracles from the system"
        "Allows for the removal of an oracle"
    ∷ definition view_all_oracle_associations "View All Oracle Associations"
        "Allows for the retrieval of any oracle association"
    ∷ []
