-- ===== src/Api/Bounds.antt =====
-- What the requests leave in the tables, against the columns of the models.
use security_tool.Prelude.{
  ℕ, Bool, true, false, List, [], ◌∷◌, Option, none, some, Text, codes, ◌==◌, text_eq, nat_eq, ok,
  raise, ◌>>=◌, All, All_at, All-snoc, ◌≡◌, inl, inr, refl, ap, sym, subst, Bool-cases,
  Outcome-cases, ok_inj,
}
use security_tool.Targets.{
  Target, World, OwnershipVerificationMethod, verify_with, get_owned_target,
  run_ownership_verification, create_ownership_challenge, accept_authorization, is_scannable,
}
use security_tool.Targets.Gate.{get_owned_target_sound}
use security_tool.Schema.CustomerModels.{target_model}
use security_tool.Api.{
  TargetCreate, ScopeRuleCreate, Tables, Request, Given, Reply, write_target, valid_target,
  valid_scope_rule, checked, serve, serve_create_target, serve_list_targets, serve_challenge,
  serve_verify, serve_authorization, serve_scope_rule, serve_list_scope_rules, serve_scan,
  serve_list_scans, kept, serve_all,
}
use security_tool.Api.Fits.{
  Fits, IsTargetRow, IsRuleRow, IsStored, valid_target-IsTargetRow, valid_scope_rule-IsRuleRow,
}

write_target-All :
    (P : Target → Type 0) (id : ℕ) (new : Target) (targets : List Target)
    → All P targets
    → P new
    → All P (write_target id new targets)
unfolding write_target
write_target-All P id new [] h k = tt
write_target-All P id new (t ∷ targets) h k = elim (Bool-cases (t.id == id)) [
  | inl e ↦ rw e (k, h.1)
  | inr e ↦ rw e (h.0, write_target-All P id new targets h.1 k)
]

abbrev pub KeepsStored : Reply → Type 0
KeepsStored (raise e) = Unit
KeepsStored (ok (answer, db)) = IsStored db

-- The columns of a target that no handler changes.
abbrev SameNames : Target → Target → Type 0
SameNames t new = (new.root_domain ≡ t.root_domain) × (new.display_name ≡ t.display_name)

verify_with-SameNames :
    (w : World) (now : ℕ) (m : Option OwnershipVerificationMethod) (token : Option Text)
    (t new : Target)
    → verify_with w now m token t ≡ ok new
    → SameNames t new
verify_with-SameNames w now none token t new h = cc
verify_with-SameNames w now (some m) none t new h = cc
verify_with-SameNames w now (some m) (some []) t new h = cc
verify_with-SameNames w now (some m) (some (c ∷ token)) t new h = (
  ap (λ (u : Target). u.root_domain) (sym (ok_inj h)),
  ap (λ (u : Target). u.display_name) (sym (ok_inj h)),
)

SameNames-IsTargetRow : (t new : Target) → SameNames t new → IsTargetRow t → IsTargetRow new
SameNames-IsTargetRow t new (a, b) (p, q) = (
  subst (Fits target_model (codes "root_domain")) (sym a) p,
  subst (Fits target_model (codes "display_name")) (sym b) q,
)

module _ (g : Given) (org : ℕ) (db : Tables) (stored : IsStored db) where
  on_owned-KeepsStored :
      (id : ℕ) (next : Target → Reply)
      → ((t : Target) → IsTargetRow t → KeepsStored (next t))
      → KeepsStored (get_owned_target db.targets org id >>= next)
  on_owned-KeepsStored id next h = elim (get_owned_target_sound db.targets org id) [
    | inr e ↦ rw e tt
    | inl (t, e, m, o, i) ↦ rw e (h t (All_at IsTargetRow db.targets stored.0 m))
  ]

  written-IsStored :
      (t new : Target)
      → SameNames t new
      → IsTargetRow t
      → IsStored (record db { targets = write_target t.id new db.targets })
  written-IsStored t new same row = (
    write_target-All IsTargetRow t.id new db.targets stored.0
        (SameNames-IsTargetRow t new same row),
    stored.1,
  )

  create_target-KeepsStored : (p : TargetCreate) → KeepsStored (serve_create_target g org db p)
  unfolding serve_create_target
  create_target-KeepsStored p = elim (Bool-cases (valid_target p)) [
    | inr e ↦ rw e tt
    | inl e ↦ rw e (
      All-snoc IsTargetRow db.targets _ stored.0 (valid_target-IsTargetRow g.id org p e),
      stored.1,
    )
  ]

  challenge-KeepsStored :
      (m : OwnershipVerificationMethod) (t : Target)
      → IsTargetRow t
      → KeepsStored (serve_challenge g org db m t)
  unfolding serve_challenge create_ownership_challenge
  challenge-KeepsStored m t row =
      written-IsStored t (create_ownership_challenge m g.token t) (refl, refl) row

  verify-KeepsStored : (t : Target) → IsTargetRow t → KeepsStored (serve_verify g org db t)
  unfolding serve_verify run_ownership_verification
  verify-KeepsStored t row = elim (Outcome-cases (run_ownership_verification g.world g.now t)) [
    | inr (e, k) ↦ rw k tt
    | inl (new, k) ↦ rw k (
        written-IsStored t new
          (verify_with-SameNames g.world g.now t.ownership_verification_method
            t.ownership_verification_token t new k)
          row)
  ]

  authorization-KeepsStored :
      (accepted : Bool) (t : Target)
      → IsTargetRow t
      → KeepsStored (serve_authorization g org db accepted t)
  unfolding serve_authorization accept_authorization
  authorization-KeepsStored true t row =
      written-IsStored t
        (record t { authorization_accepted = true; authorization_accepted_at = some g.now })
        (refl, refl) row
  authorization-KeepsStored false t row = tt

  scope_rule-KeepsStored :
      (p : ScopeRuleCreate) (t : Target)
      → KeepsStored (checked (valid_scope_rule p) (serve_scope_rule g org db p t))
  unfolding serve_scope_rule
  scope_rule-KeepsStored p t = elim (Bool-cases (valid_scope_rule p)) [
    | inr e ↦ rw e tt
    | inl e ↦ rw e (
      stored.0,
      All-snoc IsRuleRow db.scope_rules _ stored.1 (valid_scope_rule-IsRuleRow t.id p e),
    )
  ]

  scan-KeepsStored : (by : Text) (t : Target) → KeepsStored (serve_scan g org db by t)
  unfolding serve_scan
  scan-KeepsStored by t = elim (Bool-cases (is_scannable t)) [
    | inr e ↦ rw e tt
    | inl e ↦ rw e stored
  ]

  reads-KeepsStored :
      (t : Target)
      → KeepsStored (serve_list_targets g org db)
        × KeepsStored (serve_list_scope_rules g org db t)
        × KeepsStored (serve_list_scans g org db t)
  unfolding serve_list_targets serve_list_scope_rules serve_list_scans
  reads-KeepsStored t = (stored, stored, stored)

  serve-KeepsStored : (r : Request) → KeepsStored (serve g org db r)
  unfolding serve serve_list_targets
  serve-KeepsStored (Request.post_target p) = create_target-KeepsStored p
  serve-KeepsStored Request.list_targets = stored
  serve-KeepsStored (Request.get_target id) = on_owned-KeepsStored id _ (λ t row. stored)
  serve-KeepsStored (Request.post_challenge id m) =
      on_owned-KeepsStored id (serve_challenge g org db m) (challenge-KeepsStored m)
  serve-KeepsStored (Request.post_verify id) =
      on_owned-KeepsStored id (serve_verify g org db) verify-KeepsStored
  serve-KeepsStored (Request.post_authorization id accepted) =
      on_owned-KeepsStored id (serve_authorization g org db accepted)
        (authorization-KeepsStored accepted)
  serve-KeepsStored (Request.post_scope_rule id p) =
      on_owned-KeepsStored id _ (λ t row. scope_rule-KeepsStored p t)
  serve-KeepsStored (Request.list_scope_rules id) =
      on_owned-KeepsStored id (serve_list_scope_rules g org db) (λ t row. (reads-KeepsStored t).1)
  serve-KeepsStored (Request.post_scan id by) =
      on_owned-KeepsStored id (serve_scan g org db by) (λ t row. scan-KeepsStored by t)
  serve-KeepsStored (Request.list_scans id) =
      on_owned-KeepsStored id (serve_list_scans g org db) (λ t row. (reads-KeepsStored t).2)

kept-IsStored :
    (db : Tables) (reply : Reply) → IsStored db → KeepsStored reply → IsStored (kept db reply)
kept-IsStored db (raise e) h k = h
kept-IsStored db (ok (answer, db')) h k = k

-- After any requests of any organizations, every target's domain and name fit the columns of the
-- model, and every scope rule is of a known kind and effect, has a pattern that is not empty, and
-- fits its columns, the label aside. So it is to begin with.
pub serve_all-IsStored :
    (rs : List (Given × ℕ × Request)) (db : Tables) → IsStored db → IsStored (serve_all rs db)
unfolding serve_all
serve_all-IsStored [] db h = h
serve_all-IsStored ((g, org, r) ∷ rs) db h =
    serve_all-IsStored rs (kept db (serve g org db r))
      (kept-IsStored db (serve g org db r) h (serve-KeepsStored g org db h r))
