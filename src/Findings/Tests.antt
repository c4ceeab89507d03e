-- ===== src/Findings/Tests.antt =====
-- Findings that are flushed, and who reads them.
use security_tool.Prelude.{
  true, ◌≡◌, ◌≢◌, ◌⊎◌, ◌≤◌, refl, List, [], ◌∷◌, Option, none, some, codes, Memᴰ, find, any, filter,
  ok,
}
use security_tool.Targets.{Target, create_target}
use security_tool.Findings.{
  Finding, FindingConfidence, confirmed, probable, high, opened, Verification, satisfies_confirmed,
  enforce_confirmed, update_row, update_rows, flush, Scan, scan_of_org, belongs_to, list_findings,
  fingerprint_text,
}
use security_tool.Findings.Gate.{flushes, kept, flushes-IsBacked}
use security_tool.Findings.Access.{IsOwned, list_findings-IsOwned}

abbrev finding : FindingConfidence → Option Verification → Finding
finding c v = record {
  id = 1;
  scan_id = 5;
  fingerprint = codes "f";
  rule_id = codes "authz.horizontal.idor";
  severity = high;
  confidence = c;
  status = opened;
  verification = v;
}

abbrev twice : Verification
twice = record { reproduced_count = 2; attempted_count = 3; passed = true }

-- Confirmed at once, which is refused; then probable; then confirmed with its verification.
abbrev sessions : List (List Finding × List Finding)
sessions =
    (finding confirmed none ∷ [], [])
    ∷ (finding probable none ∷ [], [])
    ∷ ([], finding confirmed (some twice) ∷ [])
    ∷ []

stored : flushes sessions [] ≡ finding confirmed (some twice) ∷ []
unfolding flushes kept flush enforce_confirmed update_rows update_row satisfies_confirmed
stored = refl

is_stored : Memᴰ (finding confirmed (some twice)) (flushes sessions [])
is_stored = rw stored (Memᴰ.head refl)

flushes-IsBacked_example :
    ((finding confirmed (some twice)).confidence ≢ confirmed)
    ⊎ ((v : Verification) × ((finding confirmed (some twice)).verification ≡ some v)
        × (v.passed ≡ true)
        × (2 ≤ v.reproduced_count))
flushes-IsBacked_example = flushes-IsBacked sessions is_stored

abbrev shop : Target
shop = create_target 1 7 (codes "shop.test") (codes "Shop") true

abbrev scans : List Scan
scans = record { id = 5; target_id = 1 } ∷ record { id = 6; target_id = 2 } ∷ []

abbrev table : List Finding
table = finding probable none ∷ []

lists : list_findings scans (shop ∷ []) table 7 5 ≡ ok table
unfolding list_findings scan_of_org belongs_to find any filter create_target
lists = refl

list_findings-IsOwned_example :
    (s : Scan) × Memᴰ (finding probable none) table
    × ((finding probable none).scan_id ≡ s.id)
    × IsOwned scans (shop ∷ []) 7 5 s
list_findings-IsOwned_example =
    list_findings-IsOwned scans (shop ∷ []) table 7 5 lists (Memᴰ.head refl)

-- Two findings of different rules that are hashed alike.
same_fingerprint :
    fingerprint_text (codes "a|b") (codes "c") (codes "d") (codes "e")
    ≡ fingerprint_text (codes "a") (codes "b|c") (codes "d") (codes "e")
unfolding fingerprint_text
same_fingerprint = refl
