-- ===== src/Findings/Access.antt =====
-- Who may read a scan and its findings.
use security_tool.Prelude.{
  ℕ, Bool, true, false, ◌&&◌, List, Option, none, some, ◌==◌, nat_eq, nat_beq_iff, filter, ok, ◌≡◌,
  refl, sym, subst, ◌∙◌, Memᴰ, any_found, find-some, mem_filter, ok_inj,
}
use security_tool.Targets.{Target}
use security_tool.Findings.{
  Finding, Scan, belongs_to, scan_of_org, get_scan, list_findings, or_not_found, if_scan,
}

and_true : {a b : Bool} → (a && b) ≡ true → (a ≡ true) × (b ≡ true)
and_true {a = true} {b = true} h = (refl, refl)
and_true {a = true} {b = false} h = cc
and_true {a = false} h = cc

-- The scan is of a target of the organization.
abbrev pub IsOwned : List Scan → List Target → ℕ → ℕ → Scan → Type 0
IsOwned scans targets org scan_id s =
    Memᴰ s scans
    × (s.id ≡ scan_id)
    × ((t : Target) × Memᴰ t targets × (t.id ≡ s.target_id) × (t.organization_id ≡ org))

scan_of_org-IsOwned :
    (scans : List Scan) (targets : List Target) (org scan_id : ℕ) {s : Scan}
    → scan_of_org scans targets org scan_id ≡ some s
    → IsOwned scans targets org scan_id s
unfolding scan_of_org belongs_to
scan_of_org-IsOwned scans targets org scan_id {s} h =
    let (m, e) = find-some (λ (x : Scan). x.id == scan_id && belongs_to targets org x) scans h in
    let (a, b) = and_true e in
    let (t, n, f) =
      any_found (λ (t : Target). t.id == s.target_id && (t.organization_id == org)) targets b in
    let (c, d) = and_true f in
    (
      m,
      (nat_beq_iff s.id scan_id).0 a,
      (t, n, (nat_beq_iff t.id s.target_id).0 c, (nat_beq_iff t.organization_id org).0 d),
    )

-- `get_scan` returns a scan only of a target of the caller's organization.
pub get_scan-IsOwned :
    (scans : List Scan) (targets : List Target) (org scan_id : ℕ) {s : Scan}
    → get_scan scans targets org scan_id ≡ ok s
    → IsOwned scans targets org scan_id s
unfolding get_scan
get_scan-IsOwned scans targets org scan_id {s} h =
    by_scan (scan_of_org scans targets org scan_id) refl h
  where
    by_scan :
        (o : Option Scan)
        → scan_of_org scans targets org scan_id ≡ o
        → or_not_found o ≡ ok s
        → IsOwned scans targets org scan_id s
    by_scan none e k = cc
    by_scan (some x) e k =
        subst (IsOwned scans targets org scan_id) (ok_inj k)
          (scan_of_org-IsOwned scans targets org scan_id e)

-- `list_findings` returns findings only of a scan whose target belongs to the caller's
-- organization: each of them is a finding of that scan.
pub list_findings-IsOwned :
    (scans : List Scan) (targets : List Target) (findings : List Finding) (org scan_id : ℕ)
    {fs : List Finding} {f : Finding}
    → list_findings scans targets findings org scan_id ≡ ok fs
    → Memᴰ f fs
    → (s : Scan) × Memᴰ f findings × (f.scan_id ≡ s.id) × IsOwned scans targets org scan_id s
unfolding list_findings
list_findings-IsOwned scans targets findings org scan_id {fs} {f} h m =
    by_scan (scan_of_org scans targets org scan_id) refl h
  where
    by_scan :
        (o : Option Scan)
        → scan_of_org scans targets org scan_id ≡ o
        → if_scan o (filter (λ (g : Finding). g.scan_id == scan_id) findings) ≡ ok fs
        → (s : Scan) × Memᴰ f findings × (f.scan_id ≡ s.id) × IsOwned scans targets org scan_id s
    by_scan none e k = cc
    by_scan (some s) e k =
        let owned = scan_of_org-IsOwned scans targets org scan_id e in
        let (n, a) =
          mem_filter (λ (g : Finding). g.scan_id == scan_id) f findings
            (subst (Memᴰ f) (sym (ok_inj k)) m) in
        (s, n, (nat_beq_iff f.scan_id scan_id).0 a ∙ sym owned.1, owned)
