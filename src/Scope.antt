-- ===== src/Scope.antt =====
-- packages/core/src/sentinel_core/scope_guard/models.py and guard.py: the rules, the decision and
-- `ScopeGuard.evaluate`. A decision's `reason` keeps the values that its message quotes.
pub mod Host
mod Methods
pub mod Allowed
pub mod Rules
pub mod Pattern
pub mod Destructive
mod Tests
use security_tool.Prelude.{
  ℕ, Bool, true, false, not, ◌&&◌, ◌||◌, List, [], ◌∷◌, ◌++◌, map, Option, none, some, Text, codes,
  ◌==◌, text_eq, is_dot, lower, upper, starts_with, ends_with, strip_left, strip_right, or_text,
  any, filter, find, contains, is_some, if◌then◌else◌, Outcome, ok, raise, ◌>>=◌,
}
use security_tool.Scope.Pattern.{Compiled}
use security_tool.Url.{Library, Fault, bad_pattern, urlsplit, hostname}

pub data RuleKind : Type 0 where
  host path_prefix path_regex method : RuleKind

pub data RuleEffect : Type 0 where
  include exclude : RuleEffect

pub record ScopeRule : Type 0 where
  pub kind : RuleKind
  pub pattern : Text
  pub effect : RuleEffect
  pub label : Text

pub data ScopeVerdict : Type 0 where
  allowed blocked_host blocked_path_excluded blocked_path_not_included : ScopeVerdict
  blocked_method blocked_unverified_target : ScopeVerdict

-- What the message of a decision quotes.
pub data Reason : Type 0 where
  not_verified : Reason
  host_outside : Text → Reason
  path_excluded : Text → Text → Reason
  path_not_included : Text → Reason
  method_excluded : Text → Text → Reason
  method_not_allowed : Text → List Text → Reason
  in_scope : Reason
  destructive_pattern : Compiled → Reason
  destructive_method : Text → Reason
  no_signal : Reason

pub record ScopeDecision : Type 0 where
  pub verdict : ScopeVerdict
  pub reason : Reason
  pub matched_rule : Option ScopeRule

abbrev pub is_allowed : ScopeDecision → Bool
is_allowed d = elim d.verdict [ allowed ↦ true | _ ↦ false ]

pub record ScopeGuard : Type 0 where
  pub allowed_hosts : List Text
  pub rules : List ScopeRule
  pub target_ownership_verified : Bool
  pub default_allowed_methods : List Text

abbrev pub standard_methods : List Text
standard_methods =
    codes "GET"
    ∷ codes "HEAD"
    ∷ codes "OPTIONS"
    ∷ codes "POST"
    ∷ codes "PUT"
    ∷ codes "PATCH"
    ∷ codes "DELETE"
    ∷ []

-- `ms or default`, on sets
abbrev pub or_methods : List Text → List Text → List Text
or_methods [] ms = ms
or_methods (m ∷ rest) ms = m ∷ rest

-- The constructor; a set that is left out, or empty, is the standard one.
unfoldable pub new_guard : List Text → List ScopeRule → Bool → List Text → ScopeGuard
new_guard hosts rules verified methods = record {
  allowed_hosts = hosts;
  rules = rules;
  target_ownership_verified = verified;
  default_allowed_methods = or_methods methods standard_methods;
}

-- `h.lower().rstrip(".")`
unfoldable pub normal_host : Text → Text
unfolding lower strip_right
normal_host h = strip_right is_dot (lower h)

abbrev pub tail_text : Text → Text
tail_text [] = []
tail_text (c ∷ s) = s

-- The comparison of `_host_matches`, on what `normal_host` gives.
unfoldable pub covers : Text → Text → Bool
unfolding starts_with ends_with strip_left
covers h p =
    let suffix = tail_text p in
    if starts_with p (codes "*.")
    then ends_with h suffix && not (h == strip_left is_dot suffix)
    else h == p

-- `_host_matches`
unfoldable pub host_matches : Text → Text → Bool
unfolding normal_host covers
host_matches h pattern = covers (normal_host h) (normal_host pattern)

of_search : Option Bool → Outcome Fault Bool
of_search none = raise bad_pattern
of_search (some b) = ok b

match_kind : Library → RuleKind → Text → Text → Outcome Fault Bool
unfolding of_search starts_with
match_kind lib path_prefix pattern path = ok (starts_with path pattern)
match_kind lib path_regex pattern path = of_search (lib.search pattern path)
match_kind lib _ pattern path = ok false

-- `_path_rule_matches`
unfoldable pub path_rule_matches : Library → ScopeRule → Text → Outcome Fault Bool
unfolding match_kind
path_rule_matches lib rule path = match_kind lib rule.kind rule.pattern path

abbrev pub is_path_kind : RuleKind → Bool
is_path_kind path_prefix = true
is_path_kind path_regex = true
is_path_kind _ = false

abbrev pub is_method_kind : RuleKind → Bool
is_method_kind method = true
is_method_kind _ = false

abbrev pub is_exclude : RuleEffect → Bool
is_exclude include = false
is_exclude exclude = true

abbrev pub is_path_rule : Bool → ScopeRule → Bool
is_path_rule true r = is_path_kind r.kind && is_exclude r.effect
is_path_rule false r = is_path_kind r.kind && not (is_exclude r.effect)

abbrev pub is_method_rule : Bool → ScopeRule → Bool
is_method_rule true r = is_method_kind r.kind && is_exclude r.effect
is_method_rule false r = is_method_kind r.kind && not (is_exclude r.effect)

-- The first rule that matches the path: the loop over the excludes, and `any` over the includes.
unfoldable pub first_match : Library → List ScopeRule → Text → Outcome Fault (Option ScopeRule)
first_match lib [] path = ok none
first_match lib (r ∷ rs) path =
    path_rule_matches lib r path >>= λ hit. if hit then ok (some r) else first_match lib rs path

-- `rule.label or rule.pattern`
unfoldable pub rule_name : ScopeRule → Text
unfolding or_text
rule_name r = or_text r.label r.pattern

unfoldable pub decide_listed : List Text → Text → ScopeDecision
decide_listed methods m =
    if contains methods m
    then record { verdict = allowed; reason = in_scope; matched_rule = none }
    else record {
      verdict = blocked_method;
      reason = method_not_allowed m methods;
      matched_rule = none;
    }

unfoldable pub decide_named : Option ScopeRule → Text → ScopeDecision → ScopeDecision
decide_named none m next = next
decide_named (some rule) m next = record {
  verdict = blocked_method;
  reason = method_excluded m (rule_name rule);
  matched_rule = some rule;
}

-- The methods that the include rules name, the standard ones where they name none.
unfoldable pub allowed_methods : ScopeGuard → List Text
allowed_methods g =
    or_methods (map (λ r. upper r.pattern) (filter (is_method_rule false) g.rules))
      g.default_allowed_methods

unfoldable pub decide_method : ScopeGuard → Text → ScopeDecision
decide_method g m =
    decide_named (find (λ r. m == upper r.pattern) (filter (is_method_rule true) g.rules)) m
      (decide_listed (allowed_methods g) m)

-- From the include rules on; with no include rule every path passes.
unfoldable pub decide_include :
    List ScopeRule
    → Outcome Fault (Option ScopeRule)
    → ScopeDecision
    → Text
    → Outcome Fault ScopeDecision
decide_include [] found next path = ok next
decide_include (r ∷ rs) found next path = found >>= λ hit. ok (
    if is_some hit then next else record {
      verdict = blocked_path_not_included;
      reason = path_not_included path;
      matched_rule = none;
    })

unfoldable pub decide_exclude :
    Option ScopeRule → Outcome Fault ScopeDecision → Text → Outcome Fault ScopeDecision
decide_exclude none next path = next
decide_exclude (some rule) next path = ok (record {
  verdict = blocked_path_excluded;
  reason = path_excluded path (rule_name rule);
  matched_rule = some rule;
})

unfoldable pub decide_path : Library → ScopeGuard → Text → Text → Outcome Fault ScopeDecision
decide_path lib g m path =
    let includes = filter (is_path_rule false) g.rules in
    let rest = decide_include includes (first_match lib includes path) (decide_method g m) path in
    first_match lib (filter (is_path_rule true) g.rules) path >>= λ excluded.
    decide_exclude excluded rest path

-- From the host test on.
unfoldable pub evaluate_at : Library → ScopeGuard → Text → Text → Text → Outcome Fault ScopeDecision
evaluate_at lib g m h path =
    if any (host_matches h) g.allowed_hosts
    then decide_path lib g m path
    else ok (record { verdict = blocked_host; reason = host_outside h; matched_rule = none })

-- `ScopeGuard.evaluate`
unfoldable pub evaluate : Library → ScopeGuard → Text → Text → Outcome Fault ScopeDecision
evaluate lib g m url =
    if g.target_ownership_verified
    then (urlsplit lib url >>= λ parts.
        evaluate_at lib g (upper m) (hostname parts) (or_text parts.path (codes "/")))
    else ok
        (record { verdict = blocked_unverified_target; reason = not_verified; matched_rule = none })
