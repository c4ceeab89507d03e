-- ===== src/Api/Tests.antt =====
-- Two organizations with a target each.
use security_tool.Prelude.{ℕ, true, ◌≡◌, refl, List, [], ◌∷◌, none, codes, find, raise}
use security_tool.Targets.{dns_txt, Target, create_target, get_owned_target, not_found}
use security_tool.Api.{
  Given, Tables, Request, post_target, post_challenge, post_scope_rule, list_scope_rules, serve,
  serve_all,
}
use security_tool.Api.Fits.{IsStored}
use security_tool.Api.Owned.{IsIsolated}
use security_tool.Api.Isolation.{serve-IsIsolated}
use security_tool.Api.Bounds.{serve_all-IsStored}

abbrev shop : Target
shop = create_target 1 7 (codes "shop.test") (codes "Shop") true

abbrev bank : Target
bank = create_target 2 8 (codes "bank.test") (codes "Bank") true

abbrev given : Given
given = record {
  id = 3;
  token = codes "t";
  now = 5;
  world = record { txt_records = λ n. none; fetch = λ u. none; meta_content = λ b. none };
}

abbrev tables : Tables
tables = record {
  targets = shop ∷ bank ∷ [];
  scope_rules =
      record {
        target_id = 2;
        kind = codes "host";
        pattern = codes "bank.test";
        effect = codes "include";
        label = [];
      }
      ∷ [];
  scans = [];
}

-- A target of another organization is not found.
hides : serve given 7 tables (list_scope_rules 2) ≡ raise not_found
unfolding serve get_owned_target find create_target
hides = refl

serve-IsIsolated_example : IsIsolated 7 tables (serve given 7 tables (post_challenge 1 dns_txt))
serve-IsIsolated_example = serve-IsIsolated given 7 tables (post_challenge 1 dns_txt)

abbrev no_tables : Tables
no_tables = record { targets = []; scope_rules = []; scans = [] }

abbrev requests : List (Given × ℕ × Request)
requests =
    (
      given,
      7,
      post_target (record {
        root_domain = codes "shop.test";
        display_name = codes "Shop";
        is_production = true;
      }),
    )
    ∷ (
      given,
      7,
      post_scope_rule 3 (record {
        kind = codes "path_prefix";
        pattern = codes "/admin";
        effect = codes "exclude";
        label = [];
      }),
    )
    ∷ []

serve_all-IsStored_example : IsStored (serve_all requests no_tables)
serve_all-IsStored_example = serve_all-IsStored requests no_tables (tt, tt)
