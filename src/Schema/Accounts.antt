-- ===== src/Schema/Accounts.antt =====
-- packages/db/migrations/versions/59e49f2ddeda_initial_schema.py: the tables of customers and targets.
use security_tool.Prelude.{true, false, List, [], ◌∷◌, codes}
use security_tool.Schema.{
  Op, create_table, create_index, column, foreign_key, string, date_time, enum_type, uuid,
  large_binary, boolean, integer, jsonb,
}

unfoldable pub create_credentials : List Op
create_credentials =
    create_table record {
      name = codes "credentials";
      columns =
          column (codes "kind")
            (enum_type (codes "credentialkind") (
              codes "PASSWORD"
              ∷ codes "TOTP_SECRET"
              ∷ codes "API_TOKEN"
              ∷ codes "SESSION_IMPORT"
              ∷ []))
            false
          ∷ column (codes "ciphertext") large_binary false
          ∷ column (codes "revoked_at") (date_time false) true
          ∷ column (codes "id") uuid false
          ∷ column (codes "created_at") (date_time true) false
          ∷ column (codes "updated_at") (date_time true) false
          ∷ [];
      foreign_keys = [];
      primary_key = codes "id";
    }
    ∷ []

unfoldable pub create_organizations : List Op
create_organizations =
    create_table record {
      name = codes "organizations";
      columns =
          column (codes "name") (string 200) false
          ∷ column (codes "slug") (string 200) false
          ∷ column (codes "wrapped_data_key") large_binary false
          ∷ column (codes "stripe_customer_id") (string 100) true
          ∷ column (codes "stripe_subscription_id") (string 100) true
          ∷ column (codes "plan") (string 50) false
          ∷ column (codes "id") uuid false
          ∷ column (codes "created_at") (date_time true) false
          ∷ column (codes "updated_at") (date_time true) false
          ∷ [];
      foreign_keys = [];
      primary_key = codes "id";
    }
    ∷ create_index record {
      name = codes "ix_organizations_slug";
      table = codes "organizations";
      column = codes "slug";
      unique = true;
    }
    ∷ []

unfoldable pub create_users : List Op
create_users =
    create_table record {
      name = codes "users";
      columns =
          column (codes "organization_id") uuid false
          ∷ column (codes "clerk_user_id") (string 200) false
          ∷ column (codes "email") (string 320) false
          ∷ column (codes "role")
              (enum_type (codes "orgrole")
                (codes "OWNER" ∷ codes "ADMIN" ∷ codes "MEMBER" ∷ codes "VIEWER" ∷ []))
              false
          ∷ column (codes "id") uuid false
          ∷ column (codes "created_at") (date_time true) false
          ∷ column (codes "updated_at") (date_time true) false
          ∷ [];
      foreign_keys =
          foreign_key (codes "organization_id") (codes "organizations") (codes "id") true ∷ [];
      primary_key = codes "id";
    }
    ∷ create_index record {
      name = codes "ix_users_clerk_user_id";
      table = codes "users";
      column = codes "clerk_user_id";
      unique = true;
    }
    ∷ create_index record {
      name = codes "ix_users_organization_id";
      table = codes "users";
      column = codes "organization_id";
      unique = false;
    }
    ∷ []

unfoldable pub create_targets : List Op
create_targets =
    create_table record {
      name = codes "targets";
      columns =
          column (codes "organization_id") uuid false
          ∷ column (codes "root_domain") (string 255) false
          ∷ column (codes "display_name") (string 200) false
          ∷ column (codes "is_production") boolean false
          ∷ column (codes "ownership_verified") boolean false
          ∷ column (codes "ownership_verification_method")
              (enum_type (codes "ownershipverificationmethod")
                (codes "DNS_TXT" ∷ codes "WELL_KNOWN_FILE" ∷ codes "META_TAG" ∷ []))
              true
          ∷ column (codes "ownership_verification_token") (string 200) true
          ∷ column (codes "ownership_verified_at") (date_time true) true
          ∷ column (codes "authorization_accepted") boolean false
          ∷ column (codes "authorization_accepted_at") (date_time true) true
          ∷ column (codes "authorization_accepted_by_user_id") uuid true
          ∷ column (codes "id") uuid false
          ∷ column (codes "created_at") (date_time true) false
          ∷ column (codes "updated_at") (date_time true) false
          ∷ [];
      foreign_keys =
          foreign_key (codes "authorization_accepted_by_user_id") (codes "users") (codes "id") false
          ∷ foreign_key (codes "organization_id") (codes "organizations") (codes "id") true
          ∷ [];
      primary_key = codes "id";
    }
    ∷ create_index record {
      name = codes "ix_targets_organization_id";
      table = codes "targets";
      column = codes "organization_id";
      unique = false;
    }
    ∷ create_index record {
      name = codes "ix_targets_root_domain";
      table = codes "targets";
      column = codes "root_domain";
      unique = false;
    }
    ∷ []

unfoldable pub create_personas : List Op
create_personas =
    create_table record {
      name = codes "personas";
      columns =
          column (codes "target_id") uuid false
          ∷ column (codes "label") (string 200) false
          ∷ column (codes "role_name") (string 100) false
          ∷ column (codes "trust_rank") integer false
          ∷ column (codes "tenant_key") (string 200) true
          ∷ column (codes "credential_id") uuid true
          ∷ column (codes "login_strategy")
              (enum_type (codes "loginstrategy") (
                codes "FORM"
                ∷ codes "OAUTH_REDIRECT"
                ∷ codes "SAML"
                ∷ codes "API_TOKEN"
                ∷ codes "HAR_REPLAY"
                ∷ codes "MANUAL_SESSION"
                ∷ []))
              true
          ∷ column (codes "login_recipe") jsonb true
          ∷ column (codes "login_recipe_version") integer false
          ∷ column (codes "session_state_ciphertext") large_binary true
          ∷ column (codes "session_state_updated_at") (date_time false) true
          ∷ column (codes "session_state_expires_at") (date_time false) true
          ∷ column (codes "session_oracle") jsonb true
          ∷ column (codes "canary_tokens") jsonb false
          ∷ column (codes "expected_denied") jsonb false
          ∷ column (codes "is_available") boolean false
          ∷ column (codes "unavailable_reason") (string 500) true
          ∷ column (codes "id") uuid false
          ∷ column (codes "created_at") (date_time true) false
          ∷ column (codes "updated_at") (date_time true) false
          ∷ [];
      foreign_keys =
          foreign_key (codes "credential_id") (codes "credentials") (codes "id") false
          ∷ foreign_key (codes "target_id") (codes "targets") (codes "id") true
          ∷ [];
      primary_key = codes "id";
    }
    ∷ create_index record {
      name = codes "ix_personas_target_id";
      table = codes "personas";
      column = codes "target_id";
      unique = false;
    }
    ∷ create_index record {
      name = codes "ix_personas_tenant_key";
      table = codes "personas";
      column = codes "tenant_key";
      unique = false;
    }
    ∷ []
