-- ===== src/Substrate/Reach.antt =====
-- The hosts that a scan's engine reaches.
use security_tool.Prelude.{
  ℕ, Bool, true, false, List, [], ◌∷◌, ◌++◌, Option, Text, codes, ◌≡◌, ◌≢◌, refl, subst, inl, inr,
  ◌⊎◌, Memᴰ, ok, starts_with, lower, strip_right, is_dot, drop_blank,
}
use security_tool.Url.{Library, SplitResult, urlsplit, hostname}
use security_tool.Scope.{ScopeRule, host_matches, covers, normal_host, new_guard}
use security_tool.Scope.Host.{covers_exact, covers_wildcard}
use security_tool.Transcript.{Headers, Body}
use security_tool.Engine.{Attempt, SessionState, Event, request}
use security_tool.Engine.Attempts.{is_sent}
use security_tool.Engine.Guarded.{request-sent}
use security_tool.Targets.{Target}
use security_tool.Substrate.{build_scope_guard, build_http_engine}

-- A host is the domain or below it.
abbrev pub IsUnder : Text → Text → Type 0
IsUnder domain host = (host ≡ domain) ⊎ ((q : Text) × (host ≡ q ++ b'.' ∷ domain))

kept_front :
    (s : Text) → s ≢ [] → drop_blank is_dot b'*' (drop_blank is_dot b'.' s) ≡ codes "*." ++ s
kept_front [] h = absurd (h refl)
kept_front (c ∷ s) h = refl

normal_host-wildcard :
    (d : Text) → normal_host d ≢ [] → normal_host (codes "*." ++ d) ≡ codes "*." ++ normal_host d
unfolding normal_host strip_right lower
normal_host-wildcard d h = kept_front (normal_host d) h

host_matches-IsUnder :
    (t : Target) (h p : Text)
    → normal_host t.root_domain ≢ []
    → starts_with (normal_host t.root_domain) (codes "*.") ≡ false
    → Memᴰ p (t.root_domain ∷ (codes "*." ++ t.root_domain) ∷ [])
    → host_matches h p ≡ true
    → IsUnder (normal_host t.root_domain) (normal_host h)
unfolding host_matches
host_matches-IsUnder t h p some_root plain (Memᴰ.head e) m = inl (
    (covers_exact (normal_host h) (normal_host t.root_domain) plain).0
      (subst (λ x. covers (normal_host h) (normal_host x) ≡ true) e m))
host_matches-IsUnder t h p some_root plain (Memᴰ.tail (Memᴰ.head e)) m =
    let (q, same, _) = (covers_wildcard (normal_host h) (normal_host t.root_domain)).0 (
      subst (λ x. covers (normal_host h) x ≡ true) (normal_host-wildcard t.root_domain some_root)
        (subst (λ x. covers (normal_host h) (normal_host x) ≡ true) e m)) in
    inr (q, same)
host_matches-IsUnder t h p some_root plain (Memᴰ.tail (Memᴰ.tail n)) m = elim n [ ]

-- Whatever the engine of a scan sends goes to a URL whose host is the target's root domain or
-- below it, and only if the target's ownership is verified, whatever the target's scope rules
-- and whichever guard the caller skips. The root domain is not empty and does not begin with a
-- wildcard.
pub request-IsUnder :
    (lib : Library) (t : Target) (rules : List ScopeRule) (client : ℕ → Attempt) (p : SessionState)
    (method url : Text) (h : Headers) (b : Option Body) (link : Text) (skip : Bool) (x : Event)
    → normal_host t.root_domain ≢ []
    → starts_with (normal_host t.root_domain) (codes "*.") ≡ false
    → Memᴰ x
        (request lib
          (build_http_engine (build_scope_guard t rules))
          client
          p
          method
          url
          h
          b
          link
          skip).1
    → is_sent x ≡ true
    → (t.ownership_verified ≡ true)
      × ((parts : SplitResult) × (urlsplit lib url ≡ ok parts)
          × IsUnder (normal_host t.root_domain) (normal_host (hostname parts)))
unfolding build_scope_guard build_http_engine new_guard
request-IsUnder lib t rules client p method url h b link skip x some_root plain m v =
    let (_, (parts, split_ok, scope), _) =
      request-sent lib (build_http_engine (build_scope_guard t rules)) client p method url h b link
        skip x m v in
    let (pattern, k, match) = scope.host in
    (
      scope.verified,
      (parts, split_ok, host_matches-IsUnder t (hostname parts) pattern some_root plain k match),
    )
