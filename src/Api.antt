-- ===== src/Api.antt =====
-- apps/api/sentinel_api_app: the requests of an organization on its targets, their scope rules and
-- their scans, from the validation of the payload to the answer: routers/targets.py and
-- routers/scans.py with schemas/target.py and schemas/scan.py. A query of rows gives them in the
-- order of the table. New identifiers, tokens and times are arguments, and a message to the broker
-- is left out.
pub mod Owned
pub mod Isolation
pub mod Fits
pub mod Bounds
mod Tests
use security_tool.Prelude.{
  ℕ, Bool, true, false, not, ◌&&◌, List, [], ◌∷◌, ◌++◌, Option, none, some, Text, codes, ◌==◌,
  text_eq, nat_eq, nat_beq, leb, length, contains, filter, any, find, if◌then◌else◌, Outcome, ok,
  raise, ◌>>=◌,
}
use security_tool.Targets.{
  OwnershipVerificationMethod, dns_txt, well_known_file, meta_tag, Target, World, HttpError,
  unprocessable, get_owned_target, create_target, create_ownership_challenge,
  run_ownership_verification, accept_authorization, is_scannable, create_scan, forbidden,
}

pub record TargetCreate : Type 0 where
  pub root_domain : Text
  pub display_name : Text
  pub is_production : Bool

pub record ScopeRuleCreate : Type 0 where
  pub kind : Text
  pub pattern : Text
  pub effect : Text
  pub label : Text

pub record ScopeRuleRow : Type 0 where
  pub target_id : ℕ
  pub kind : Text
  pub pattern : Text
  pub effect : Text
  pub label : Text

pub record ScanRow : Type 0 where
  pub id : ℕ
  pub target_id : ℕ
  pub triggered_by : Text

pub record Tables : Type 0 where
  pub targets : List Target
  pub scope_rules : List ScopeRuleRow
  pub scans : List ScanRow

-- Field(min_length=1, max_length=n)
abbrev pub has_length : ℕ → Text → Bool
has_length n s = leb 1 (length s) && leb (length s) n

abbrev pub kinds : List Text
kinds = codes "host" ∷ codes "path_prefix" ∷ codes "path_regex" ∷ codes "method" ∷ []

abbrev pub effects : List Text
effects = codes "include" ∷ codes "exclude" ∷ []

unfoldable pub valid_target : TargetCreate → Bool
valid_target p = has_length 255 p.root_domain && has_length 200 p.display_name

unfoldable pub valid_scope_rule : ScopeRuleCreate → Bool
unfolding contains
valid_scope_rule p =
    contains kinds p.kind && (has_length 500 p.pattern && contains effects p.effect)

pub data Request : Type 0 where
  post_target : TargetCreate → Request
  list_targets : Request
  get_target : ℕ → Request
  post_challenge : ℕ → OwnershipVerificationMethod → Request
  post_verify : ℕ → Request
  post_authorization : ℕ → Bool → Request
  post_scope_rule : ℕ → ScopeRuleCreate → Request
  list_scope_rules : ℕ → Request
  post_scan : ℕ → Text → Request
  list_scans : ℕ → Request

-- The answers; the detail of a verification is left out.
pub data Answer : Type 0 where
  target_out : Target → Answer
  targets_out : List Target → Answer
  challenge_out : OwnershipVerificationMethod → Text → Text → Answer
  verify_out : Bool → Answer
  rule_out : ScopeRuleRow → Answer
  rules_out : List ScopeRuleRow → Answer
  scan_out : ScanRow → Answer
  scans_out : List ScanRow → Answer

-- `_INSTRUCTIONS[method].format(domain=domain)`
unfoldable pub instructions : OwnershipVerificationMethod → Text → Text
instructions dns_txt domain =
    codes "Create a TXT record at _sentinel-verify."
    ++ (domain ++ codes " with the exact value shown.")
instructions well_known_file domain =
    codes "Serve a file at https://"
    ++ (domain
        ++ codes "/.well-known/sentinel-verify.txt whose entire body is the exact value shown.")
instructions meta_tag domain =
    codes "Add <meta name=\"sentinel-verify\" content=\"TOKEN\"> to the <head> of https://"
    ++ (domain ++ codes "/, replacing TOKEN with the exact value shown.")

-- The row that the session has under an identifier is written where it stands.
unfoldable pub write_target : ℕ → Target → List Target → List Target
write_target id new [] = []
write_target id new (t ∷ ts) =
    let rest = write_target id new ts in if t.id == id then new ∷ ts else t ∷ rest

abbrev pub with_target : ℕ → Target → Tables → Tables
with_target id new db = record db { targets = write_target id new db.targets }

abbrev pub rule_row : ℕ → ScopeRuleCreate → ScopeRuleRow
rule_row target_id p = record {
  target_id = target_id;
  kind = p.kind;
  pattern = p.pattern;
  effect = p.effect;
  label = p.label;
}

-- What a request is given besides its payload: a new identifier, a token, the time, the network.
pub record Given : Type 0 where
  pub id : ℕ
  pub token : Text
  pub now : ℕ
  pub world : World

abbrev pub Reply : Type 0
Reply = Outcome HttpError (Answer × Tables)

abbrev pub checked : Bool → Reply → Reply
checked valid reply = if valid then reply else raise unprocessable

module _ (g : Given) (org : ℕ) (db : Tables) where
  unfoldable pub serve_create_target : TargetCreate → Reply
  unfolding valid_target create_target
  serve_create_target p =
      let t = create_target g.id org p.root_domain p.display_name p.is_production in
      checked (valid_target p) (ok (target_out t, record db { targets = db.targets ++ t ∷ [] }))

  unfoldable pub serve_list_targets : Reply
  unfolding filter
  serve_list_targets =
      ok (targets_out (filter (λ (t : Target). t.organization_id == org) db.targets), db)

  unfoldable pub serve_challenge : OwnershipVerificationMethod → Target → Reply
  unfolding create_ownership_challenge instructions write_target
  serve_challenge m t = ok (
    challenge_out m g.token (instructions m t.root_domain),
    with_target t.id (create_ownership_challenge m g.token t) db,
  )

  unfoldable pub serve_verify : Target → Reply
  unfolding run_ownership_verification write_target
  serve_verify t = run_ownership_verification g.world g.now t >>= λ new.
      ok (verify_out new.ownership_verified, with_target t.id new db)

  unfoldable pub serve_authorization : Bool → Target → Reply
  unfolding accept_authorization write_target
  serve_authorization accepted t =
      accept_authorization accepted g.now t >>= λ new. ok (target_out new, with_target t.id new db)

  -- `create_scope_rule`
  unfoldable pub serve_scope_rule : ScopeRuleCreate → Target → Reply
  serve_scope_rule p t = ok (
    rule_out (rule_row t.id p),
    record db { scope_rules = db.scope_rules ++ rule_row t.id p ∷ [] },
  )

  unfoldable pub serve_list_scope_rules : Target → Reply
  unfolding filter
  serve_list_scope_rules t =
      ok (rules_out (filter (λ (r : ScopeRuleRow). r.target_id == t.id) db.scope_rules), db)

  -- `create_scan`
  unfoldable pub serve_scan : Text → Target → Reply
  serve_scan triggered_by t =
      let row : ScanRow = record { id = g.id; target_id = t.id; triggered_by = triggered_by } in
      if not (is_scannable t)
      then raise forbidden
      else ok (scan_out row, record db { scans = db.scans ++ row ∷ [] })

  unfoldable pub serve_list_scans : Target → Reply
  unfolding filter
  serve_list_scans t = ok (scans_out (filter (λ (s : ScanRow). s.target_id == t.id) db.scans), db)

  abbrev pub on_owned : ℕ → (Target → Reply) → Reply
  on_owned id next = get_owned_target db.targets org id >>= next

  -- A request of the organization, with the handler that its route has.
  unfoldable pub serve : Request → Reply
  unfolding get_owned_target valid_scope_rule serve_create_target serve_list_targets serve_challenge
      serve_verify serve_authorization serve_scope_rule serve_list_scope_rules serve_scan
      serve_list_scans
  serve (post_target p) = serve_create_target p
  serve list_targets = serve_list_targets
  serve (get_target id) = on_owned id (λ t. ok (target_out t, db))
  serve (post_challenge id m) = on_owned id (serve_challenge m)
  serve (post_verify id) = on_owned id serve_verify
  serve (post_authorization id accepted) = on_owned id (serve_authorization accepted)
  serve (post_scope_rule id p) =
      on_owned id (λ t. checked (valid_scope_rule p) (serve_scope_rule p t))
  serve (list_scope_rules id) = on_owned id serve_list_scope_rules
  serve (post_scan id triggered_by) = on_owned id (serve_scan triggered_by)
  serve (list_scans id) = on_owned id serve_list_scans

abbrev pub kept : Tables → Reply → Tables
kept db (raise e) = db
kept db (ok (answer, db')) = db'

-- Any requests of any organizations, one after another; a refusal leaves the tables as they are.
unfoldable pub serve_all : List (Given × ℕ × Request) → Tables → Tables
unfolding serve
serve_all [] db = db
serve_all ((g, org, r) ∷ rs) db = serve_all rs (kept db (serve g org db r))
