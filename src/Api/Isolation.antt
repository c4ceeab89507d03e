-- ===== src/Api/Isolation.antt =====
-- What a request of one organization sees and changes of another one's.
use security_tool.Prelude.{
  ℕ, Bool, true, false, List, some, Text, ◌==◌, text_eq, nat_eq, nat_beq_iff, filter, ok, ◌>>=◌,
  All, Memᴰ, mem_filter, All-mem, ◌≡◌, inl, inr, refl, sym, subst, ◌∙◌, Bool-cases, Outcome-cases,
}
use security_tool.Targets.{
  OwnershipVerificationMethod, Target, get_owned_target, create_target, create_ownership_challenge,
  run_ownership_verification, accept_authorization, is_scannable,
}
use security_tool.Targets.Gate.{get_owned_target_sound}
use security_tool.Api.{
  TargetCreate, ScopeRuleCreate, Tables, Request, Answer, Given, Reply, instructions, with_target,
  checked, valid_target, valid_scope_rule, serve, serve_create_target, serve_list_targets,
  serve_challenge, serve_verify, serve_authorization, serve_scope_rule, serve_list_scope_rules,
  serve_scan, serve_list_scans,
}
use security_tool.Api.Owned.{
  Owns, rule_target, scan_target, IsOwn, IsIsolated, foreign-write_target, foreign-snoc,
  run_ownership_verification-org,
}

module _ (g : Given) (org : ℕ) (db : Tables) where
  -- What a handler may rely on: the target is the one that the dependency gave.
  abbrev IsGiven : Target → Type 0
  IsGiven t =
      (get_owned_target db.targets org t.id ≡ ok t) × Memᴰ t db.targets × (t.organization_id ≡ org)

  on_owned-IsIsolated :
      (id : ℕ) (next : Target → Reply)
      → ((t : Target) → IsGiven t → IsIsolated org db (next t))
      → IsIsolated org db (get_owned_target db.targets org id >>= next)
  on_owned-IsIsolated id next h = elim (get_owned_target_sound db.targets org id) [
    | inr e ↦ rw e tt
    | inl (t, e, m, o, i) ↦
        rw e (h t (subst (λ j. get_owned_target db.targets org j ≡ ok t) (sym i) e, m, o))
  ]

  -- A handler that writes the target, and tells what is the organization's.
  written-IsIsolated :
      (t new : Target) (answer : Answer)
      → IsGiven t
      → new.organization_id ≡ org
      → IsOwn org db.targets answer
      → IsIsolated org db (ok (answer, with_target t.id new db))
  written-IsIsolated t new answer (e, m, o) same own =
      (own, foreign-write_target org t.id t new db.targets e same, inl refl, inl refl)

  owned_rows :
      {A : Type 0} (t : Target) (target_of : A → ℕ) (rows : List A)
      → IsGiven t
      → All (λ (r : A). Owns org db.targets (target_of r)) (filter (λ r. target_of r == t.id) rows)
  owned_rows t target_of rows (e, m, o) =
      All-mem _ (filter (λ r. target_of r == t.id) rows)
        λ r n. (t, m, sym ((nat_beq_iff (target_of r) t.id).0 (mem_filter _ r rows n).1), o)

  create_target-IsIsolated : (p : TargetCreate) → IsIsolated org db (serve_create_target g org db p)
  unfolding serve_create_target create_target
  create_target-IsIsolated p = elim (Bool-cases (valid_target p)) [
    | inr e ↦ rw e tt
    | inl e ↦ rw e (refl, foreign-snoc org _ db.targets refl, inl refl, inl refl)
  ]

  list_targets-IsIsolated : IsIsolated org db (serve_list_targets g org db)
  unfolding serve_list_targets
  list_targets-IsIsolated = (
    All-mem _ (filter (λ (t : Target). t.organization_id == org) db.targets)
        (λ t n. (nat_beq_iff t.organization_id org).0 (mem_filter _ t db.targets n).1),
    refl,
    inl refl,
    inl refl,
  )

  challenge-IsIsolated :
      (m : OwnershipVerificationMethod) (t : Target)
      → IsGiven t
      → IsIsolated org db (serve_challenge g org db m t)
  unfolding serve_challenge create_ownership_challenge
  challenge-IsIsolated m t given =
      written-IsIsolated t (create_ownership_challenge m g.token t)
        (Answer.challenge_out m g.token (instructions m t.root_domain)) given given.2
        (t, given.1, given.2, refl)

  verify-IsIsolated : (t : Target) → IsGiven t → IsIsolated org db (serve_verify g org db t)
  unfolding serve_verify
  verify-IsIsolated t given = elim (Outcome-cases (run_ownership_verification g.world g.now t)) [
    | inr (e, k) ↦ rw k tt
    | inl (new, k) ↦ rw k (
        written-IsIsolated t new (Answer.verify_out new.ownership_verified) given
          (run_ownership_verification-org g.world g.now t new k ∙ given.2) tt)
  ]

  list_scope_rules-IsIsolated :
      (t : Target) → IsGiven t → IsIsolated org db (serve_list_scope_rules g org db t)
  unfolding serve_list_scope_rules
  list_scope_rules-IsIsolated t given =
      (owned_rows t rule_target db.scope_rules given, refl, inl refl, inl refl)

  list_scans-IsIsolated : (t : Target) → IsGiven t → IsIsolated org db (serve_list_scans g org db t)
  unfolding serve_list_scans
  list_scans-IsIsolated t given =
      (owned_rows t scan_target db.scans given, refl, inl refl, inl refl)

  authorization-IsIsolated :
      (accepted : Bool) (t : Target)
      → IsGiven t
      → IsIsolated org db (serve_authorization g org db accepted t)
  unfolding serve_authorization accept_authorization
  authorization-IsIsolated true t given =
      let new : Target = record t {
        authorization_accepted = true;
        authorization_accepted_at = some g.now;
      } in
      written-IsIsolated t new (Answer.target_out new) given given.2 given.2
  authorization-IsIsolated false t given = tt

  scope_rule-IsIsolated :
      (p : ScopeRuleCreate) (t : Target)
      → IsGiven t
      → IsIsolated org db (checked (valid_scope_rule p) (serve_scope_rule g org db p t))
  unfolding serve_scope_rule
  scope_rule-IsIsolated p t (e, m, o) = elim (Bool-cases (valid_scope_rule p)) [
    | inr k ↦ rw k tt
    | inl k ↦ rw k ((t, m, refl, o), refl, inr (_, refl, (t, m, refl, o)), inl refl)
  ]

  scan-IsIsolated :
      (by : Text) (t : Target) → IsGiven t → IsIsolated org db (serve_scan g org db by t)
  unfolding serve_scan
  scan-IsIsolated by t (e, m, o) = elim (Bool-cases (is_scannable t)) [
    | inr k ↦ rw k tt
    | inl k ↦ rw k ((t, m, refl, o), refl, inl refl, inr (_, refl, (t, m, refl, o)))
  ]

  -- Organizations are isolated. Whatever a request of an organization asks for, an answer that is
  -- not a refusal tells only of the organization's own targets and of rules and scans of its own
  -- targets; the rows of the other organizations' targets stay as they are, and the tables of rules
  -- and of scans stay as they are or get one row of an own target.
  pub serve-IsIsolated : (r : Request) → IsIsolated org db (serve g org db r)
  unfolding serve
  serve-IsIsolated (Request.post_target p) = create_target-IsIsolated p
  serve-IsIsolated Request.list_targets = list_targets-IsIsolated
  serve-IsIsolated (Request.get_target id) =
      on_owned-IsIsolated id _ (λ t given. (given.2, refl, inl refl, inl refl))
  serve-IsIsolated (Request.post_challenge id m) =
      on_owned-IsIsolated id (serve_challenge g org db m) (challenge-IsIsolated m)
  serve-IsIsolated (Request.post_verify id) =
      on_owned-IsIsolated id (serve_verify g org db) verify-IsIsolated
  serve-IsIsolated (Request.post_authorization id accepted) =
      on_owned-IsIsolated id (serve_authorization g org db accepted)
        (authorization-IsIsolated accepted)
  serve-IsIsolated (Request.post_scope_rule id p) =
      on_owned-IsIsolated id _ (scope_rule-IsIsolated p)
  serve-IsIsolated (Request.list_scope_rules id) =
      on_owned-IsIsolated id (serve_list_scope_rules g org db) list_scope_rules-IsIsolated
  serve-IsIsolated (Request.post_scan id by) =
      on_owned-IsIsolated id (serve_scan g org db by) (scan-IsIsolated by)
  serve-IsIsolated (Request.list_scans id) =
      on_owned-IsIsolated id (serve_list_scans g org db) list_scans-IsIsolated
