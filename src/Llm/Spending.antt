-- ===== src/Llm/Spending.antt =====
-- What calls may cost.
use security_tool.Prelude.{
  ℕ, ap, zero, suc, length, Option, some, none, Option-cases, ◌+◌, ◌*◌, ◌≤◌, true, false, ◌≡◌, ◌≢◌,
  ◌↔◌, refl, List, [], ◌∷◌, Text, arith, Bool-cases, inl, inr, Outcome, ok, raise, All, ◌∙◌, ◌⊎◌,
  leb,
}
use security_tool.Llm.{
  ModelTier, high, mid, low, TokenBudget, total, Response, is_exhausted, is_under_pressure,
  effective_tier_of, degrade_tier, complete_structured, receive, Event, begins, arrives, Shared,
  Awaiting, pick, behind, handle, handle_all,
}

-- The tokens that `n` answers may cost.
abbrev pub times : ℕ → ℕ → ℕ
times most zero = 0
times most (suc n) = most + times most n

times-le : (most n k : ℕ) → n ≤ k → times most n ≤ times most k
times-le most zero k h = omega arith
times-le most (suc n) zero h = absurd (omega (arith, h))
times-le most (suc n) (suc k) h = omega (arith, times-le most n k (omega (arith, h)))

rest_of : Option (Awaiting × List Awaiting) → List Awaiting
rest_of none = []
rest_of (some (c, rest)) = rest

pick-length :
    (n : ℕ) (cs : List Awaiting) {c : Awaiting} {rest : List Awaiting}
    → pick n cs ≡ some (c, rest)
    → length cs ≡ suc (length rest)
unfolding pick rest_of
pick-length n [] h = absurd (apart h)
  where
    apart : {r : Awaiting × List Awaiting} → none ≡ some r → ⊥
    apart e = cc
pick-length zero (c ∷ cs) h = let e : cs ≡ _ = ap rest_of h in rw e refl
pick-length (suc n) (c ∷ cs) h = by_rest (pick n cs) (λ x xs e. pick-length n cs e) h
  where
    by_rest :
        (o : Option (Awaiting × List Awaiting)) {d : Awaiting} {rest : List Awaiting}
        → ((x : Awaiting) (xs : List Awaiting) → o ≡ some (x, xs) → length cs ≡ suc (length xs))
        → behind c o ≡ some (d, rest)
        → suc (length cs) ≡ suc (length rest)
    by_rest none e k = cc
    by_rest (some (x, xs)) e k = ground (arith, e x xs refl, ap length (ap rest_of k))

abbrev IsCovered : ℕ → ℕ → Shared → Type 0
IsCovered most k s = s.budget.used + times most (length s.pending) ≤ s.budget.limit + times most k

abbrev Grows : Shared → Shared → Type 0
Grows s t = (s.budget.used ≤ t.budget.used) × (t.budget.limit ≡ s.budget.limit)

module _ {D : Type 0} where
  -- No answer of the provider costs more than `most`.
  abbrev pub IsCheap : ℕ → (Text → Outcome Text (Response D)) → Type 0
  IsCheap most provider =
      (model : Text) (r : Response D) → provider model ≡ ok r → total r.usage ≤ most

  receive-used :
      (most : ℕ) (answer : Outcome Text (Response D)) (b : TokenBudget) (model : Text)
      (tier effective : ModelTier)
      → ((r : Response D) → answer ≡ ok r → total r.usage ≤ most)
      → ((receive answer b model tier effective).1.used ≤ b.used + most)
        × (b.used ≤ (receive answer b model tier effective).1.used)
        × ((receive answer b model tier effective).1.limit ≡ b.limit)
  receive-used most (raise e) b model tier effective h = (omega arith, omega arith, refl)
  receive-used most (ok r) b model tier effective h = (omega (arith, h r refl), omega arith, refl)

  -- No answer costs more than `most`.
  abbrev pub IsCheapEvent : ℕ → Event D → Type 0
  IsCheapEvent most (begins tier) = Unit
  IsCheapEvent most (arrives n answer) = (r : Response D) → answer ≡ ok r → total r.usage ≤ most

  module _ (model_ids : ModelTier → Text) (most : ℕ) where
    -- At no time do more than `k` calls wait.
    abbrev pub Overlap : ℕ → List (Event D) → Shared → Type 0
    Overlap k [] s = length s.pending ≤ k
    Overlap k (x ∷ xs) s = (length s.pending ≤ k) × Overlap k xs (handle model_ids x s)

    handle-Grows :
        (k : ℕ) (x : Event D) (s : Shared)
        → IsCheapEvent most x
        → IsCovered most k s
        → length (handle model_ids x s).pending ≤ k
        → Grows s (handle model_ids x s) × IsCovered most k (handle model_ids x s)
    unfolding handle is_exhausted
    handle-Grows k (begins tier) s cheap h l =
        elim (Bool-cases (leb s.budget.limit s.budget.used)) [
          | inl e ↦ rw e ((omega arith, refl), h)
          | inr e ↦
              let l' : suc (length s.pending) ≤ k = rw e at l in
              rw e (
                (omega arith, refl),
                ground (arith, e, times-le most (suc (length s.pending)) k l'),
              )
        ]
    handle-Grows k (arrives n answer) s cheap h l = elim (Option-cases (pick n s.pending)) [
      | inl e ↦ rw e ((omega arith, refl), h)
      | inr ((c, rest), e) ↦
          let (x, y, z) = receive-used most answer s.budget c.model c.tier c.effective cheap in
          let p = ap (times most) (pick-length n s.pending e) in
          rw e ((y, z), omega (arith, h, x, p, z))
    ]

    Overlap-now : (k : ℕ) (xs : List (Event D)) (s : Shared) → Overlap k xs s → length s.pending ≤ k
    Overlap-now k [] s o = o
    Overlap-now k (x ∷ xs) s o = o.0

    handle_all-IsCovered :
        (k : ℕ) (xs : List (Event D)) (s : Shared)
        → All (IsCheapEvent most) xs
        → Overlap k xs s
        → IsCovered most k s
        → Grows s (handle_all model_ids xs s) × IsCovered most k (handle_all model_ids xs s)
    unfolding handle_all
    handle_all-IsCovered k [] s cheap overlap h = ((omega arith, refl), h)
    handle_all-IsCovered k (x ∷ xs) s cheap overlap h =
        let t = handle model_ids x s in
        let ((a, b), c) = handle-Grows k x s cheap.0 h (Overlap-now k xs t overlap.1) in
        let ((d, e), f) = handle_all-IsCovered k xs t cheap.1 overlap.1 c in
        ((omega (arith, a, d), e ∙ b), f)

    -- However calls that share a budget overlap, where no answer costs more than `most` tokens and at
    -- no time more than `k` calls wait for one: from a budget that is not overrun, and no call
    -- waiting, the limit stays, what is used never shrinks, and at most `k` answers' worth of tokens
    -- are used beyond the limit.
    pub handle_all-used :
        (k : ℕ) (xs : List (Event D)) (s : Shared)
        → All (IsCheapEvent most) xs
        → Overlap k xs s
        → s.pending ≡ []
        → s.budget.used ≤ s.budget.limit
        → (s.budget.used ≤ (handle_all model_ids xs s).budget.used)
          × ((handle_all model_ids xs s).budget.limit ≡ s.budget.limit)
          × ((handle_all model_ids xs s).budget.used ≤ s.budget.limit + times most k)
    handle_all-used k xs s cheap overlap none_waits below =
        let z = ap (λ (p : List Awaiting). times most (length p)) none_waits in
        let ((a, b), c) = handle_all-IsCovered k xs s cheap overlap (omega (arith, below, z)) in
        (a, b, omega (arith, b, c))

    -- A call that no other overlaps is `complete_structured`.
    handle_all-alone :
        (tier : ModelTier) (provider : Text → Outcome Text (Response D)) (b : TokenBudget)
        → handle_all model_ids
            (begins tier ∷ arrives 0 (provider (model_ids (effective_tier_of b tier))) ∷ [])
            (record { budget = b; pending = [] })
          ≡ record { budget = (complete_structured model_ids provider tier b).1; pending = [] }
    unfolding handle_all handle pick complete_structured is_exhausted
    handle_all-alone tier provider b = elim (Bool-cases (leb b.limit b.used)) [
      | inl e ↦ rw e refl
      | inr e ↦ rw e refl
    ]

under_pressure_iff :
    (b : TokenBudget) → (is_under_pressure b ≡ true) ↔ ((b.limit ≡ 0) ⊎ (4 * b.limit ≤ 5 * b.used))
unfolding is_under_pressure
under_pressure_iff b = ground arith

degrade_tier_changes : (tier : ModelTier) → tier ≢ low → degrade_tier tier ≢ tier
unfolding degrade_tier
degrade_tier_changes high n e = cc
degrade_tier_changes mid n e = cc
degrade_tier_changes low n e = n refl

degrade_tier_low : {tier : ModelTier} → tier ≡ low → degrade_tier tier ≡ tier
unfolding degrade_tier
degrade_tier_low e = rw e refl

-- A call is given another tier than it asks for exactly when it does not ask for the lowest one and
-- the budget is empty or at least four fifths of it are used.
pub effective_tier_of_degraded :
    (b : TokenBudget) (tier : ModelTier)
    → (effective_tier_of b tier ≢ tier)
      ↔ ((tier ≢ low) × ((b.limit ≡ 0) ⊎ (4 * b.limit ≤ 5 * b.used)))
unfolding effective_tier_of
effective_tier_of_degraded b tier = elim (Bool-cases (is_under_pressure b)) [
  | inl k ↦ (
    λ n. (λ e. n (rw k (degrade_tier_low e)), (under_pressure_iff b).0 k),
    λ (n, p). rw k (degrade_tier_changes tier n),
  )
  | inr k ↦ (λ n. absurd (n (rw k refl)), λ h. absurd (not_both ((under_pressure_iff b).1 h.1) k))
]
  where
    not_both : is_under_pressure b ≡ true → is_under_pressure b ≡ false → ⊥
    not_both p q = cc
