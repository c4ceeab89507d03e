-- ===== src/Engine/Guarded.antt =====
-- Nothing is sent that the guards do not admit.
use security_tool.Prelude.{
  ℕ, Bool, true, false, ◌≡◌, refl, List, Option, Text, codes, arith, inl, inr, ◌⊎◌, Memᴰ, upper,
  Outcome, ok, raise, or_text, text_eq,
}
use security_tool.Url.{Library, Fault, SplitResult, urlsplit, hostname}
use security_tool.Scope.{ScopeDecision, is_allowed}
use security_tool.Scope.Allowed.{IsInScope, evaluate-IsInScope}
use security_tool.Scope.Destructive.{DestructiveCheck, check}
use security_tool.Transcript.{Headers, Body}
use security_tool.Engine.{
  HttpEngine, SessionState, Attempt, Event, EngineError, EngineResponse, admit, request, sent,
  request_headers, admit_decided, if_admitted,
}
use security_tool.Engine.Attempts.{is_sent, transmit-sent}

abbrev pub IsHarmless : Bool → Outcome Fault DestructiveCheck → Type 0
IsHarmless skip checked =
    (skip ≡ true) ⊎ ((c : DestructiveCheck) × (checked ≡ ok c) × (c.is_suspect ≡ false))

admit_decided_sound :
    (decided : Outcome Fault ScopeDecision) (skip : Bool) (checked : Outcome Fault DestructiveCheck)
    {u : Unit {0}}
    → admit_decided decided skip checked ≡ ok u
    → (d : ScopeDecision) × (decided ≡ ok d) × (is_allowed d ≡ true) × IsHarmless skip checked
admit_decided_sound (raise f) skip checked h = cc
admit_decided_sound (ok d) true checked h = (d, refl, ground arith, inl refl)
admit_decided_sound (ok d) false (raise f) h = ground arith
admit_decided_sound (ok d) false (ok c) h = (d, refl, ground arith, inr (c, refl, ground arith))

if_admitted-sent :
    (admitted : Outcome EngineError (Unit {0}))
    (run : Outcome EngineError EngineResponse × List Event) {x : Event}
    → Memᴰ x (if_admitted admitted run).1
    → (admitted ≡ ok tt) × Memᴰ x run.1
if_admitted-sent (raise f) run m = elim m [ ]
if_admitted-sent (ok u) run m = (refl, m)

-- Whatever `request` sends is its own method and URL, with the headers of its persona; the guard
-- allows it and it is in the target's scope; and unless the caller skips that guard, the
-- destructive-action guard does not suspect it.
pub request-sent :
    (lib : Library) (e : HttpEngine) (client : ℕ → Attempt) (p : SessionState) (method url : Text)
    (h : Headers) (b : Option Body) (link : Text) (skip : Bool) (x : Event)
    → Memᴰ x (request lib e client p method url h b link skip).1
    → is_sent x ≡ true
    → (x ≡ sent (upper method) url (request_headers e p h))
      × ((parts : SplitResult) × (urlsplit lib url ≡ ok parts)
          × IsInScope lib e.scope_guard
              (upper (upper method))
              (hostname parts)
              (or_text parts.path (codes "/")))
      × IsHarmless skip (check lib e.destructive_guard (upper method) url link)
unfolding request admit
request-sent lib e client p method url h b link skip x k v =
    let (a, j) = if_admitted-sent _ _ k in
    let (d, y, w, harmless) = admit_decided_sound _ skip _ a in
    (
      transmit-sent e client p (upper method) url h b x j v,
      evaluate-IsInScope lib e.scope_guard (upper method) url d y w,
      harmless,
    )
