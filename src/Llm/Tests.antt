-- ===== src/Llm/Tests.antt =====
-- Calls against a small budget.
use security_tool.Prelude.{
  ℕ, ◌≡◌, refl, ◌≤◌, ◌+◌, List, [], ◌∷◌, some, Text, codes, Outcome, ok, arith, text_eq,
}
use security_tool.Llm.{
  high, mid, Response, Block, default_model_ids, effective_tier_of, is_under_pressure, degrade_tier,
  is_exhausted, total, Event, begins, arrives, Shared, pick, handle, handle_all,
}
use security_tool.Llm.Spending.{handle_all-used, times}

abbrev block : Block ℕ
block = record { kind = some (codes "tool_use"); name = some (codes "emit_result"); input = 7 }

abbrev reply : Response ℕ
reply = record { usage = record { input_tokens = 20; output_tokens = 10 }; content = block ∷ [] }

-- Two calls overlap, a third begins when one has come back.
abbrev events : List (Event ℕ)
events =
    begins high
    ∷ begins mid
    ∷ arrives 1 (ok reply)
    ∷ begins high
    ∷ arrives 1 (ok reply)
    ∷ arrives 0 (ok reply)
    ∷ begins high
    ∷ []

abbrev fresh : Shared
fresh = record { budget = record { limit = 50; used = 0 }; pending = [] }

abbrev answer : Outcome Text (Response ℕ)
answer = ok reply

reply_cheap : (r : Response ℕ) → answer ≡ ok r → total r.usage ≤ 30
reply_cheap r e = ground (arith, e)

-- Three calls of 30 tokens each are made: the third begins before the limit of 50 is reached.
overshoots :
    handle_all default_model_ids events fresh
    ≡ record { budget = record { limit = 50; used = 90 }; pending = [] }
unfolding handle_all handle pick is_exhausted effective_tier_of is_under_pressure degrade_tier
overshoots = refl

handle_all-used_example :
    (0 ≤ (handle_all default_model_ids events fresh).budget.used)
    × ((handle_all default_model_ids events fresh).budget.limit ≡ 50)
    × ((handle_all default_model_ids events fresh).budget.used ≤ 50 + times 30 2)
unfolding handle pick is_exhausted effective_tier_of is_under_pressure degrade_tier
handle_all-used_example =
    handle_all-used default_model_ids 30 2 events fresh
      (tt, (tt, (reply_cheap, (tt, (reply_cheap, (reply_cheap, (tt, tt)))))))
      (
        omega arith,
        (
          omega arith,
          (omega arith, (omega arith, (omega arith, (omega arith, (omega arith, omega arith))))),
        ),
      )
      refl (omega arith)
