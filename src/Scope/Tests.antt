-- ===== src/Scope/Tests.antt =====
-- Decisions on concrete requests, and the theorems of the modules beside this one at them.
use security_tool.Prelude.{
  ◌++◌, nat_beq, true, false, ◌≡◌, ◌↔◌, refl, List, [], ◌∷◌, Text, codes, none, some, ok, upper,
  or_text, starts_with, lower, contains, any, text_eq, text_beq, find, split_once, filter,
}
use security_tool.Url.{Library, SplitResult, urlsplit, hostname}
use security_tool.Scope.{
  RuleKind, ScopeRule, ScopeGuard, ScopeDecision, path_prefix, exclude, include, standard_methods,
  covers, host_matches, evaluate, path_rule_matches, decide_path, evaluate_at, first_match,
  decide_method, decide_include, decide_exclude, decide_named, decide_listed, allowed_methods,
  ScopeVerdict, Reason,
}
use security_tool.Scope.Host.{covers_exact}
use security_tool.Scope.Allowed.{IsInScope, evaluate-IsInScope}
use security_tool.Scope.Pattern.{
  lits, default, keyword, fold_case, fold_char, match_here, search_from, search_ignore_case,
}
use security_tool.Scope.Destructive.{matches}

-- A library whose `search` looks for the pattern at the start of the text.
abbrev prefix_library : Library
prefix_library = record {
  search = λ p s. some (starts_with s p);
  netloc_valid = λ s. true;
  alnum = λ c. false;
}

abbrev rules : List ScopeRule
rules =
    record { kind = path_prefix; pattern = codes "/admin"; effect = exclude; label = [] }
    ∷ record { kind = RuleKind.host; pattern = codes "api.acme.test"; effect = exclude; label = [] }
    ∷ record { kind = RuleKind.method; pattern = codes "get"; effect = include; label = [] }
    ∷ []

abbrev acme : ScopeGuard
acme = record {
  allowed_hosts = codes "acme.test" ∷ codes "*.acme.test" ∷ [];
  rules = rules;
  target_ownership_verified = true;
  default_allowed_methods = standard_methods;
}

abbrev api_url : Text
api_url = codes "https://u@API.acme.test:8443/users/7?x=1#top"

splits :
    urlsplit prefix_library api_url
    ≡ ok (record {
      scheme = codes "https";
      netloc = codes "u@API.acme.test:8443";
      path = codes "/users/7";
      query = codes "x=1";
      fragment = codes "top";
    })
unfolding urlsplit text_beq
splits = refl

abbrev yes_decision : ScopeDecision
yes_decision = record {
  verdict = ScopeVerdict.allowed;
  reason = Reason.in_scope;
  matched_rule = none;
}

admits : evaluate prefix_library acme (codes "get") api_url ≡ ok yes_decision
unfolding evaluate urlsplit text_beq evaluate_at any host_matches hostname decide_path first_match
    path_rule_matches or_text decide_exclude decide_include decide_method decide_named find
    decide_listed allowed_methods lower split_once upper contains filter
admits = refl

covers_exact_example :
    (covers (codes "a.test") (codes "a.test") ≡ true) ↔ (codes "a.test" ≡ codes "a.test")
unfolding starts_with
covers_exact_example = covers_exact (codes "a.test") (codes "a.test") refl

evaluate-IsInScope_example :
    (parts : SplitResult) × (urlsplit prefix_library api_url ≡ ok parts)
    × IsInScope prefix_library acme
        (upper (codes "get"))
        (hostname parts)
        (or_text parts.path (codes "/"))
evaluate-IsInScope_example =
    evaluate-IsInScope prefix_library acme (codes "get") api_url yes_decision admits refl

-- A letter beyond ASCII keeps a keyword from standing alone; the Kelvin sign is a k.
accented :
    (matches (λ c. nat_beq c 0xe9) (0xe9 ∷ codes "delete") (default (keyword (codes "delete")))
      ≡ false)
    × (matches
          (λ c. nat_beq c 0xe9)
          (codes "revo" ++ 0x212a ∷ codes "e")
          (default (keyword (codes "revoke")))
        ≡ true)
unfolding matches search_ignore_case search_from match_here fold_case fold_char lits
accented = (refl, refl)
