-- ===== src/Api/Owned.antt =====
-- The rows of an organization, and those of the others when one is written.
use security_tool.Prelude.{
  ℕ, not, List, [], ◌∷◌, ◌++◌, Option, none, some, Text, ◌==◌, text_eq, nat_eq, nat_beq,
  nat_beq_iff, filter, find, ok, raise, All, Memᴰ, ◌≡◌, ◌⊎◌, inl, inr, refl, ap, sym, Bool-cases,
  raise_no_ok, ok_inj,
}
use security_tool.Targets.{
  OwnershipVerificationMethod, Target, World, verify_with, get_owned_target,
  run_ownership_verification,
}
use security_tool.Api.{ScopeRuleRow, ScanRow, Tables, Answer, Reply, instructions, write_target}

-- A target of the organization with the identifier.
abbrev pub Owns : ℕ → List Target → ℕ → Type 0
Owns org targets id = (t : Target) × Memᴰ t targets × (t.id ≡ id) × (t.organization_id ≡ org)

-- The rows of other organizations.
unfoldable pub foreign : ℕ → List Target → List Target
unfolding filter
foreign org targets = filter (λ t. not (t.organization_id == org)) targets

-- The rows are the same, or one of an own target has joined them.
abbrev pub Extends : {A : Type 0} → ℕ → List Target → (A → ℕ) → List A → List A → Type 0
Extends {A} org targets target_of rows rows' =
    (rows' ≡ rows) ⊎ ((row : A) × (rows' ≡ rows ++ row ∷ []) × Owns org targets (target_of row))

abbrev pub rule_target : ScopeRuleRow → ℕ
rule_target r = r.target_id

abbrev pub scan_target : ScanRow → ℕ
scan_target s = s.target_id

-- An answer tells of the organization's own targets, rules and scans only.
abbrev pub IsOwn : ℕ → List Target → Answer → Type 0
IsOwn org targets (Answer.target_out t) = t.organization_id ≡ org
IsOwn org targets (Answer.targets_out ts) = All (λ (t : Target). t.organization_id ≡ org) ts
IsOwn org targets (Answer.challenge_out m token text) =
    (t : Target) × Memᴰ t targets
    × (t.organization_id ≡ org)
    × (text ≡ instructions m t.root_domain)
IsOwn org targets (Answer.verify_out verified) = Unit
IsOwn org targets (Answer.rule_out r) = Owns org targets r.target_id
IsOwn org targets (Answer.rules_out rs) =
    All (λ (r : ScopeRuleRow). Owns org targets r.target_id) rs
IsOwn org targets (Answer.scan_out s) = Owns org targets s.target_id
IsOwn org targets (Answer.scans_out ss) = All (λ (s : ScanRow). Owns org targets s.target_id) ss

-- A reply that is not refused: what it tells, and what it leaves in the tables.
abbrev pub IsIsolated : ℕ → Tables → Reply → Type 0
IsIsolated org db (raise e) = Unit
IsIsolated org db (ok (answer, db')) =
    IsOwn org db.targets answer
    × (foreign org db'.targets ≡ foreign org db.targets)
    × Extends org db.targets rule_target db.scope_rules db'.scope_rules
    × Extends org db.targets scan_target db.scans db'.scans

pub foreign-write_target :
    (org id : ℕ) (t new : Target) (targets : List Target)
    → get_owned_target targets org id ≡ ok t
    → new.organization_id ≡ org
    → foreign org (write_target id new targets) ≡ foreign org targets
unfolding foreign write_target get_owned_target find filter
foreign-write_target org id t new [] h same = refl
foreign-write_target org id t new (u ∷ targets) h same = elim (Bool-cases (nat_beq u.id id)) [
  | inr e ↦
      let ih = foreign-write_target org id t new targets (rw e at h) same in
      elim (Bool-cases (nat_beq u.organization_id org)) [
        | inl o ↦ rw (e, o) ih
        | inr o ↦ rw (e, o) (ap (λ l. u ∷ l) ih)
      ]
  | inl e ↦ elim (Bool-cases (nat_beq u.organization_id org)) [
    | inl o ↦ rw (e, o, (nat_beq_iff new.organization_id org).1 same) refl
    | inr o ↦ absurd (raise_no_ok (rw (e, o) at h))
  ]
]

pub foreign-snoc :
    (org : ℕ) (new : Target) (targets : List Target)
    → new.organization_id ≡ org
    → foreign org (targets ++ new ∷ []) ≡ foreign org targets
unfolding foreign filter
foreign-snoc org new [] same = rw ((nat_beq_iff new.organization_id org).1 same) refl
foreign-snoc org new (u ∷ targets) same =
    let ih = foreign-snoc org new targets same in
    elim (Bool-cases (nat_beq u.organization_id org)) [
      | inl o ↦ rw o ih
      | inr o ↦ rw o (ap (λ l. u ∷ l) ih)
    ]

verify_with-org :
    (w : World) (now : ℕ) (m : Option OwnershipVerificationMethod) (token : Option Text)
    (t new : Target)
    → verify_with w now m token t ≡ ok new
    → new.organization_id ≡ t.organization_id
verify_with-org w now none token t new h = cc
verify_with-org w now (some m) none t new h = cc
verify_with-org w now (some m) (some []) t new h = cc
verify_with-org w now (some m) (some (c ∷ token)) t new h =
    ap (λ (u : Target). u.organization_id) (sym (ok_inj h))

pub run_ownership_verification-org :
    (w : World) (now : ℕ) (t new : Target)
    → run_ownership_verification w now t ≡ ok new
    → new.organization_id ≡ t.organization_id
unfolding run_ownership_verification
run_ownership_verification-org w now t new h =
    verify_with-org w now t.ownership_verification_method t.ownership_verification_token t new h
