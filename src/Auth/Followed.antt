-- ===== src/Auth/Followed.antt =====
-- A replay follows its recipe.
use security_tool.Prelude.{
  ℕ, Bool, false, List, [], ◌∷◌, ◌++◌, map, Option, none, some, text_eq, Outcome, ok, raise, ◌≡◌,
  ◌⊎◌,
}
use security_tool.Auth.Replay.{
  LoginStep, LoginRecipe, Credentials, PageCall, goes_to, closes, Reply, ReplayFault,
  LoginReplayResult, Replaying, Checked, step_call, assertion_call,
}

abbrev call_of : Outcome ReplayFault PageCall → Option PageCall
call_of (ok c) = some c
call_of (raise e) = none

-- What the steps ask for, each the call that it makes, or none where it can make none, and then the
-- last entries.
unfoldable pub steps_plan :
    Credentials → List LoginStep → List (Option PageCall) → List (Option PageCall)
unfolding step_call
steps_plan credentials [] last = last
steps_plan credentials (step ∷ steps) last =
    call_of (step_call credentials step) ∷ steps_plan credentials steps last

-- The whole recipe: its start page, all of its steps, and its assertion, none if its kind is unknown.
unfoldable pub plan : LoginRecipe → Credentials → List (Option PageCall)
unfolding assertion_call
plan recipe credentials =
    some (goes_to recipe.start_url)
    ∷ steps_plan credentials recipe.steps (assertion_call recipe.success_assertion ∷ [])

abbrev Kept : List (Option PageCall) → List (Option PageCall) → Replaying → Type 0
Kept whole left (ok made) = map some made ++ left ≡ whole
Kept whole left (raise (e, made)) =
    (rest : List (Option PageCall)) × (map some made ++ rest ≡ whole)

module _ (page : ℕ → Reply) (whole : List (Option PageCall)) where
  -- The calls of a block that ends with a verdict; one that says yes has made them all.
  abbrev KeptChecked : Checked → Type 0
  KeptChecked (ok (verdict, made)) =
      (rest : List (Option PageCall)) × (map some made ++ rest ≡ whole)
      × ((verdict ≡ false) ⊎ (rest ≡ []))
  KeptChecked (raise (e, made)) = (rest : List (Option PageCall)) × (map some made ++ rest ≡ whole)

-- Whether a replay reports a login.
abbrev pub succeeded : Outcome ReplayFault LoginReplayResult → Bool
succeeded (ok r) = r.success
succeeded (raise e) = false

abbrev IsConcluded :
    List (Option PageCall) → Outcome ReplayFault LoginReplayResult × List PageCall → Type 0
IsConcluded whole (result, calls) =
    (made : List PageCall) × (rest : List (Option PageCall)) × (calls ≡ made ++ closes ∷ [])
    × (map some made ++ rest ≡ whole)
    × ((succeeded result ≡ false) ⊎ (rest ≡ []))
