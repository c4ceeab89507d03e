-- ===== src/Substrate.antt =====
-- apps/worker/sentinel_worker_app/substrate.py: the guard and the engine of a scan, from the rows of
-- its target.
pub mod Reach
mod Tests
use security_tool.Prelude.{ℕ, Bool, false, List, [], ◌∷◌, ◌++◌, map, Text, codes}
use security_tool.Scope.{ScopeGuard, ScopeRule, RuleKind, RuleEffect, new_guard}
use security_tool.Scope.Destructive.{new_destructive_guard}
use security_tool.Engine.{HttpEngine}
use security_tool.Targets.{Target}

unfoldable pub build_scope_guard : Target → List ScopeRule → ScopeGuard
unfolding new_guard
build_scope_guard target scope_rules =
    new_guard (target.root_domain ∷ (codes "*." ++ target.root_domain) ∷ []) scope_rules
      target.ownership_verified []

-- The arguments that are left out have the defaults of `HttpEngine.__init__`.
unfoldable pub build_http_engine : ScopeGuard → HttpEngine
unfolding new_destructive_guard
build_http_engine scope_guard = record {
  scope_guard = scope_guard;
  destructive_guard = new_destructive_guard false [];
  max_retries = 2;
  user_agent = codes "SentinelScanner/0.1 (+https://example.invalid/about-our-scanner)";
}
