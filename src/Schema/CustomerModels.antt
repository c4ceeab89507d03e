-- ===== src/Schema/CustomerModels.antt =====
-- packages/db/src/sentinel_db/models: the columns that organization.py, target.py and persona.py declare.
use security_tool.Prelude.{true, false, [], ◌∷◌, ◌++◌, codes}
use security_tool.Schema.{
  Model, mapped, referring, indexed, string, date_time, enum_type, uuid, large_binary, boolean,
  integer, jsonb, uuid_primary_key_mixin, timestamp_mixin,
}

unfoldable pub organization_model : Model
organization_model = record {
  tablename = codes "organizations";
  columns =
      (mapped (codes "name") (string 200) false
        ∷ indexed true (mapped (codes "slug") (string 200) false)
        ∷ mapped (codes "wrapped_data_key") large_binary false
        ∷ mapped (codes "stripe_customer_id") (string 100) true
        ∷ mapped (codes "stripe_subscription_id") (string 100) true
        ∷ mapped (codes "plan") (string 50) false
        ∷ [])
      ++ (uuid_primary_key_mixin ++ timestamp_mixin);
}

unfoldable pub user_model : Model
user_model = record {
  tablename = codes "users";
  columns =
      (indexed false (
          referring (codes "organizations") (codes "id") true
            (mapped (codes "organization_id") uuid false))
        ∷ indexed true (mapped (codes "clerk_user_id") (string 200) false)
        ∷ mapped (codes "email") (string 320) false
        ∷ mapped (codes "role")
            (enum_type (codes "orgrole")
              (codes "OWNER" ∷ codes "ADMIN" ∷ codes "MEMBER" ∷ codes "VIEWER" ∷ []))
            false
        ∷ [])
      ++ (uuid_primary_key_mixin ++ timestamp_mixin);
}

unfoldable pub target_model : Model
target_model = record {
  tablename = codes "targets";
  columns =
      (indexed false (
          referring (codes "organizations") (codes "id") true
            (mapped (codes "organization_id") uuid false))
        ∷ indexed false (mapped (codes "root_domain") (string 255) false)
        ∷ mapped (codes "display_name") (string 200) false
        ∷ mapped (codes "is_production") boolean false
        ∷ mapped (codes "ownership_verified") boolean false
        ∷ mapped (codes "ownership_verification_method")
            (enum_type (codes "ownershipverificationmethod")
              (codes "DNS_TXT" ∷ codes "WELL_KNOWN_FILE" ∷ codes "META_TAG" ∷ []))
            true
        ∷ mapped (codes "ownership_verification_token") (string 200) true
        ∷ mapped (codes "ownership_verified_at") (date_time true) true
        ∷ mapped (codes "authorization_accepted") boolean false
        ∷ mapped (codes "authorization_accepted_at") (date_time true) true
        ∷ referring (codes "users") (codes "id") false
            (mapped (codes "authorization_accepted_by_user_id") uuid true)
        ∷ [])
      ++ (uuid_primary_key_mixin ++ timestamp_mixin);
}

unfoldable pub scope_rule_model : Model
scope_rule_model = record {
  tablename = codes "scope_rules";
  columns =
      (indexed false
          (referring (codes "targets") (codes "id") true (mapped (codes "target_id") uuid false))
        ∷ mapped (codes "kind") (string 20) false
        ∷ mapped (codes "pattern") (string 500) false
        ∷ mapped (codes "effect") (string 10) false
        ∷ mapped (codes "label") (string 200) false
        ∷ [])
      ++ (uuid_primary_key_mixin ++ timestamp_mixin);
}

unfoldable pub credential_model : Model
credential_model = record {
  tablename = codes "credentials";
  columns =
      (mapped (codes "kind")
          (enum_type (codes "credentialkind") (
            codes "PASSWORD"
            ∷ codes "TOTP_SECRET"
            ∷ codes "API_TOKEN"
            ∷ codes "SESSION_IMPORT"
            ∷ []))
          false
        ∷ mapped (codes "ciphertext") large_binary false
        ∷ mapped (codes "revoked_at") (date_time false) true
        ∷ [])
      ++ (uuid_primary_key_mixin ++ timestamp_mixin);
}

unfoldable pub persona_model : Model
persona_model = record {
  tablename = codes "personas";
  columns =
      (indexed false
          (referring (codes "targets") (codes "id") true (mapped (codes "target_id") uuid false))
        ∷ mapped (codes "label") (string 200) false
        ∷ mapped (codes "role_name") (string 100) false
        ∷ mapped (codes "trust_rank") integer false
        ∷ indexed false (mapped (codes "tenant_key") (string 200) true)
        ∷ referring (codes "credentials") (codes "id") false
            (mapped (codes "credential_id") uuid true)
        ∷ mapped (codes "login_strategy")
            (enum_type (codes "loginstrategy") (
              codes "FORM"
              ∷ codes "OAUTH_REDIRECT"
              ∷ codes "SAML"
              ∷ codes "API_TOKEN"
              ∷ codes "HAR_REPLAY"
              ∷ codes "MANUAL_SESSION"
              ∷ []))
            true
        ∷ mapped (codes "login_recipe") jsonb true
        ∷ mapped (codes "login_recipe_version") integer false
        ∷ mapped (codes "session_state_ciphertext") large_binary true
        ∷ mapped (codes "session_state_updated_at") (date_time false) true
        ∷ mapped (codes "session_state_expires_at") (date_time false) true
        ∷ mapped (codes "session_oracle") jsonb true
        ∷ mapped (codes "canary_tokens") jsonb false
        ∷ mapped (codes "expected_denied") jsonb false
        ∷ mapped (codes "is_available") boolean false
        ∷ mapped (codes "unavailable_reason") (string 500) true
        ∷ [])
      ++ (uuid_primary_key_mixin ++ timestamp_mixin);
}
