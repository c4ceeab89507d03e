-- ===== src/Llm.antt =====
-- packages/ai/src/sentinel_ai: models.py, budget.py, routing.py and client.py. The model provider
-- is a parameter. The fraction of the budget that is used is compared without rounding.
pub mod Spending
mod Tests
use security_tool.Prelude.{
  ℕ, zero, suc, ◌+◌, ◌-◌, ◌*◌, Bool, true, false, not, ◌&&◌, ◌||◌, List, [], ◌∷◌, Option, none,
  some, Text, codes, leb, nat_beq, ◌==◌, text_eq, if◌then◌else◌, Outcome, ok, raise, find,
}

pub data ModelTier : Type 0 where
  high mid low : ModelTier

pub record TokenUsage : Type 0 where
  pub input_tokens : ℕ
  pub output_tokens : ℕ

abbrev pub total : TokenUsage → ℕ
total u = u.input_tokens + u.output_tokens

pub record TokenBudget : Type 0 where
  pub limit : ℕ
  pub used : ℕ

-- Subtraction stops at 0, as `max(0, ...)` does.
unfoldable pub remaining : TokenBudget → ℕ
remaining b = b.limit - b.used

unfoldable pub is_exhausted : TokenBudget → Bool
is_exhausted b = leb b.limit b.used

-- `fraction_used() >= DEGRADE_THRESHOLD`: an empty budget is used up; else `used / limit >= 0.8`.
unfoldable pub is_under_pressure : TokenBudget → Bool
is_under_pressure b = leb b.limit 0 || leb (4 * b.limit) (5 * b.used)

abbrev pub record_usage : TokenUsage → TokenBudget → TokenBudget
record_usage u b = record b { used = b.used + total u }

unfoldable pub degrade_tier : ModelTier → ModelTier
degrade_tier high = mid
degrade_tier mid = low
degrade_tier low = low

unfoldable pub default_model_ids : ModelTier → Text
default_model_ids high = codes "claude-opus-5"
default_model_ids mid = codes "claude-sonnet-5"
default_model_ids low = codes "claude-haiku-4-5-20251001"

abbrev result_tool_name : Text
result_tool_name = codes "emit_result"

pub record Block (D : Type 0) : Type 0 where
  pub kind : Option Text
  pub name : Option Text
  pub input : D

pub record Response (D : Type 0) : Type 0 where
  pub usage : TokenUsage
  pub content : List (Block D)

pub record StructuredCallResult (D : Type 0) : Type 0 where
  pub data_read : D
  pub usage : TokenUsage
  pub model_used : Text
  pub requested_tier : ModelTier
  pub effective_tier : ModelTier

-- What a call can raise: `BudgetExhaustedError`, what the provider raises, and `ValueError` of a
-- response without the block that was asked for.
pub data CallError : Type 0 where
  budget_exhausted : TokenBudget → CallError
  provider_error : Text → CallError
  no_tool_use : CallError

abbrev has_text : Option Text → Text → Bool
has_text none t = false
has_text (some s) t = s == t

unfoldable pub effective_tier_of : TokenBudget → ModelTier → ModelTier
effective_tier_of b tier = if is_under_pressure b then degrade_tier tier else tier

-- A call that awaits the provider: the tier it asked for, the one it has, and the model.
pub record Awaiting : Type 0 where
  pub tier : ModelTier
  pub effective : ModelTier
  pub model : Text

-- A client that tasks share: `await self._api.create(...)` lets another call begin.
pub record Shared : Type 0 where
  pub budget : TokenBudget
  pub pending : List Awaiting

-- A task begins a call, or the provider's answer to one of those that wait arrives.
pub data Event (D : Type 0) : Type 0 where
  begins : ModelTier → Event D
  arrives : ℕ → Outcome Text (Response D) → Event D

abbrev pub awaiting : (ModelTier → Text) → ModelTier → TokenBudget → Awaiting
awaiting model_ids tier b = record {
  tier = tier;
  effective = effective_tier_of b tier;
  model = model_ids (effective_tier_of b tier);
}

abbrev pub behind : Awaiting → Option (Awaiting × List Awaiting) → Option (Awaiting × List Awaiting)
behind c none = none
behind c (some (d, rest)) = some (d, c ∷ rest)

-- The call at a place, and the others.
unfoldable pub pick : ℕ → List Awaiting → Option (Awaiting × List Awaiting)
pick n [] = none
pick zero (c ∷ cs) = some (c, cs)
pick (suc n) (c ∷ cs) = behind c (pick n cs)

module _ {D : Type 0} where
  abbrev is_result : Block D → Bool
  is_result b = has_text b.kind (codes "tool_use") && has_text b.name result_tool_name

  abbrev input_of : Option (Block D) → Outcome CallError D
  input_of none = raise no_tool_use
  input_of (some b) = ok b.input

  -- `_extract_tool_input`
  unfoldable pub extract_tool_input : Response D → Outcome CallError D
  unfolding find
  extract_tool_input r = input_of (find is_result r.content)

  abbrev pub result_of :
      Outcome CallError D
      → TokenUsage
      → Text
      → ModelTier
      → ModelTier
      → Outcome CallError (StructuredCallResult D)
  result_of (raise e) u model tier effective = raise e
  result_of (ok d) u model tier effective = ok (record {
    data_read = d;
    usage = u;
    model_used = model;
    requested_tier = tier;
    effective_tier = effective;
  })

  -- From the response on: its usage counts even when the block is missing.
  abbrev pub receive :
      Outcome Text (Response D)
      → TokenBudget
      → Text
      → ModelTier
      → ModelTier
      → Outcome CallError (StructuredCallResult D) × TokenBudget
  receive (raise e) b model tier effective = (raise (provider_error e), b)
  receive (ok r) b model tier effective =
      (result_of (extract_tool_input r) r.usage model tier effective, record_usage r.usage b)

  -- `LLMClient.complete_structured`
  unfoldable pub complete_structured :
      (ModelTier → Text)
      → (Text → Outcome Text (Response D))
      → ModelTier
      → TokenBudget
      → Outcome CallError (StructuredCallResult D) × TokenBudget
  complete_structured model_ids provider tier b =
      if is_exhausted b
      then (raise (budget_exhausted b), b)
      else receive (provider (model_ids (effective_tier_of b tier))) b
          (model_ids (effective_tier_of b tier)) tier (effective_tier_of b tier)

  abbrev pub arrived :
      Outcome Text (Response D) → Option (Awaiting × List Awaiting) → Shared → Shared
  arrived answer none s = s
  arrived answer (some (c, rest)) s = record {
    budget = (receive answer s.budget c.model c.tier c.effective).1;
    pending = rest;
  }

  -- The two halves of `complete_structured`, on either side of its `await`.
  unfoldable pub handle : (ModelTier → Text) → Event D → Shared → Shared
  unfolding is_exhausted
  handle model_ids (begins tier) s =
      if is_exhausted s.budget
      then s
      else record s { pending = awaiting model_ids tier s.budget ∷ s.pending }
  handle model_ids (arrives n answer) s = arrived answer (pick n s.pending) s

  unfoldable pub handle_all : (ModelTier → Text) → List (Event D) → Shared → Shared
  handle_all model_ids [] s = s
  handle_all model_ids (x ∷ xs) s = handle_all model_ids xs (handle model_ids x s)
