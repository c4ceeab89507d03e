-- ===== src/Findings.antt =====
-- packages/db/src/sentinel_db/models/finding.py, with the enums of enums.py, and who may read the
-- findings and the scans: `list_findings` of apps/api/sentinel_api_app/routers/findings.py and
-- `get_scan` of routers/scans.py. Columns that no code here reads are left out. SHA-256 is a
-- parameter, and a session's flush is given the rows that are new and dirty.
pub mod Gate
pub mod Access
mod Tests
use security_tool.Prelude.{
  ℕ, Bool, true, false, not, ◌&&◌, ◌||◌, List, [], ◌∷◌, ◌++◌, Option, none, some, is_some, Text,
  ◌==◌, text_eq, nat_eq, leb, any, find, filter, if◌then◌else◌, Outcome, ok, raise, Equality, ◌≡◌,
  ◌↔◌, enum_iff,
}
use security_tool.Targets.{Target, HttpError, not_found}

pub data FindingSeverity : Type 0 where
  critical high medium low info : FindingSeverity

pub data FindingConfidence : Type 0 where
  confirmed probable informational : FindingConfidence

pub data FindingStatus : Type 0 where
  opened fixed regressed accepted_risk false_positive : FindingStatus

abbrev pub min_reproductions_for_confirmed : ℕ
min_reproductions_for_confirmed = 2

pub record Verification : Type 0 where
  pub reproduced_count : ℕ
  pub attempted_count : ℕ
  pub passed : Bool

unfoldable pub satisfies_confirmed : Verification → Bool
satisfies_confirmed v = v.passed && leb min_reproductions_for_confirmed v.reproduced_count

pub record Finding : Type 0 where
  pub id : ℕ
  pub scan_id : ℕ
  pub fingerprint : Text
  pub rule_id : Text
  pub severity : FindingSeverity
  pub confidence : FindingConfidence
  pub status : FindingStatus
  pub verification : Option Verification

-- What `compute_fingerprint` hashes: the four parts between bars.
unfoldable pub fingerprint_text : Text → Text → Text → Text → Text
fingerprint_text rule_id endpoint_template param persona_pair =
    rule_id ++ b'|' ∷ (endpoint_template ++ b'|' ∷ (param ++ b'|' ∷ persona_pair))

unfoldable pub compute_fingerprint : (Text → Text) → Text → Text → Text → Text → Text
unfolding fingerprint_text
compute_fingerprint sha256 rule_id endpoint_template param persona_pair =
    sha256 (fingerprint_text rule_id endpoint_template param persona_pair)

abbrev pub is_confirmed : FindingConfidence → Bool
is_confirmed confirmed = true
is_confirmed _ = false

abbrev pub is_verified : Option Verification → Bool
is_verified none = false
is_verified (some v) = satisfies_confirmed v

-- The ValueError names the finding and its rule.
pub record Refused : Type 0 where
  pub finding_id : ℕ
  pub rule_id : Text

abbrev pub is_refused : Finding → Bool
is_refused f = is_confirmed f.confidence && not (is_verified f.verification)

-- The listener of `before_flush`, on the rows that are new and those that are dirty.
unfoldable pub enforce_confirmed : List Finding → Outcome Refused (Unit {0})
unfolding satisfies_confirmed
enforce_confirmed [] = ok tt
enforce_confirmed (f ∷ fs) =
    let rest = enforce_confirmed fs in
    if is_refused f then raise record { finding_id = f.id; rule_id = f.rule_id } else rest

-- A dirty row takes the place of the row with its key.
unfoldable pub update_row : Finding → List Finding → List Finding
update_row f [] = []
update_row f (g ∷ rows) =
    let rest = update_row f rows in if g.id == f.id then f ∷ rest else g ∷ rest

unfoldable pub update_rows : List Finding → List Finding → List Finding
unfolding update_row
update_rows [] rows = rows
update_rows (f ∷ dirty) rows = update_rows dirty (update_row f rows)

abbrev pub flushed :
    Outcome Refused (Unit {0}) → List Finding → List Finding → Outcome Refused (List Finding)
flushed (raise e) rows after = raise e
flushed (ok u) rows after = ok after

-- A flush: the table after it.
unfoldable pub flush : List Finding → List Finding → List Finding → Outcome Refused (List Finding)
unfolding enforce_confirmed update_rows
flush new dirty rows =
    flushed (enforce_confirmed (new ++ dirty)) rows (update_rows dirty rows ++ new)

pub record Scan : Type 0 where
  pub id : ℕ
  pub target_id : ℕ

-- select(Scan).join(Target).where(Scan.id == scan_id, Target.organization_id == org.id)
unfoldable pub belongs_to : List Target → ℕ → Scan → Bool
unfolding any
belongs_to targets org s =
    any (λ (t : Target). t.id == s.target_id && (t.organization_id == org)) targets

unfoldable pub scan_of_org : List Scan → List Target → ℕ → ℕ → Option Scan
unfolding find belongs_to
scan_of_org scans targets org scan_id =
    find (λ (s : Scan). s.id == scan_id && belongs_to targets org s) scans

abbrev pub or_not_found : Option Scan → Outcome HttpError Scan
or_not_found none = raise not_found
or_not_found (some s) = ok s

unfoldable pub get_scan : List Scan → List Target → ℕ → ℕ → Outcome HttpError Scan
unfolding scan_of_org
get_scan scans targets org scan_id = or_not_found (scan_of_org scans targets org scan_id)

abbrev pub if_scan : Option Scan → List Finding → Outcome HttpError (List Finding)
if_scan none fs = raise not_found
if_scan (some s) fs = ok fs

unfoldable pub list_findings :
    List Scan → List Target → List Finding → ℕ → ℕ → Outcome HttpError (List Finding)
unfolding scan_of_org filter
list_findings scans targets findings org scan_id =
    if_scan (scan_of_org scans targets org scan_id)
      (filter (λ (f : Finding). f.scan_id == scan_id) findings)
