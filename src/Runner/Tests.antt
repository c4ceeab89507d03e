-- ===== src/Runner/Tests.antt =====
-- A run of a queued scan, and a second run of a paused one.
use security_tool.Prelude.{◌≡◌, refl, [], ◌∷◌, some, codes, ok, raise, true, false}
use security_tool.Machine.{ScanState, ScanPhaseName, PhaseStatus, MachineError}
use security_tool.Runner.{Facts, ScanRow, run_scan, invalid, with_phase, session_of, session_at_end}
use security_tool.Runner.Ends.{run_scan-not_queued, run_scan-end, queued_scan, expected_end}

abbrev facts : Facts
facts = record {
  is_scannable = true;
  recon_result = ok (record { degraded = false; notes = [] });
  has_master_key = true;
  personas = record { id = codes "p"; label = codes "Ann"; has_login_recipe = true } ∷ [];
  login = ok tt;
  establish = λ i. record { available = true; has_oracle = false };
  crawl = λ ids. ok tt;
  merge = ok tt;
  flush = λ n. ok tt;
}

abbrev paused_scan : ScanRow
paused_scan = record {
  state = ScanState.paused;
  paused_from = some ScanState.surface_mapping;
  phases = (ScanPhaseName.scope_verifying, PhaseStatus.completed) ∷ [];
  is_degraded = true;
  degraded_reasons = [];
  is_finished = false;
}

run_scan-not_queued_example :
    (run_scan facts paused_scan
      ≡ raise (
          invalid
            (MachineError.invalid_transition paused_scan.state ScanState.scope_verifying)
            (with_phase ScanPhaseName.scope_verifying (session_of paused_scan))))
    × ((session_at_end (run_scan facts paused_scan)).committed ≡ [])
run_scan-not_queued_example = run_scan-not_queued facts paused_scan (λ e. cc)

run_scan-end_example :
    (session_at_end (run_scan facts (queued_scan paused_scan))).scan.state ≡ expected_end facts
run_scan-end_example =
    run_scan-end facts paused_scan (record { degraded = false; notes = [] }) refl refl refl refl
      (λ n. refl)
