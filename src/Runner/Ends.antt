-- ===== src/Runner/Ends.antt =====
-- How a run ends.
use security_tool.Prelude.{
  true, ◌∙◌, ℕ, Bool, false, not, ◌&&◌, ◌≡◌, ◌≢◌, refl, [], if◌then◌else◌, ok, raise, ◌>>=◌,
  Bool-cases, inl, inr,
}
use security_tool.Machine.{
  ScanState, ScanPhaseName, phase_name_eq, state_eq, ScanStateMachine, MachineError, transition,
  can_transition,
}
use security_tool.Machine.Laws.{◌⟶◌, start, can_transition_iff}
use security_tool.Runner.{
  with_phase, Facts, ScanRow, ReconResult, run_scan, verify_scope, run_recon_phase, establish_auth,
  run_crawl_phase, map_surfaces, available_personas, crawled_as, session_at_end, session_of,
  logs_in, is_empty, invalid,
}
use security_tool.Runner.Moves.{Goes, Goes-then, Stops-then, Stops-bind, Stops-end, Goes-end}
use security_tool.Runner.Phases.{
  verify_scope-Goes, verify_scope-Stops, run_recon_phase-Goes, run_crawl_phase-Goes,
  map_surfaces-Goes, establish_auth-Goes, establish_auth-Stops,
}

abbrev pub queued_scan : ScanRow → ScanRow
queued_scan scan = record scan { state = ScanState.queued }

-- Where a run ends that no exception leaves.
abbrev pub end_of : Bool → Bool → ScanState
end_of is_scannable fails_auth =
    if not is_scannable
    then ScanState.blocked_unverified
    else if fails_auth
    then ScanState.failed_auth
    else ScanState.paused

abbrev pub expected_end : Facts → ScanState
expected_end f = end_of f.is_scannable (logs_in f && is_empty (available_personas f))

end_of_blocked : {a : Bool} (b : Bool) → a ≡ false → ScanState.blocked_unverified ≡ end_of a b
end_of_blocked b h = rw h refl

end_of_scanned :
    {a b : Bool} (c : Bool)
    → a ≡ true
    → b ≡ c
    → (if c then ScanState.failed_auth else ScanState.paused) ≡ end_of a b
end_of_scanned c h k = rw (h, k) refl

no_start :
    (m : ScanStateMachine)
    → m.current ≢ ScanState.queued
    → can_transition m ScanState.scope_verifying ≡ false
no_start m n = elim (Bool-cases (can_transition m ScanState.scope_verifying)) [
  | inr k ↦ k
  | inl k ↦ absurd (n (from_queued ((can_transition_iff m ScanState.scope_verifying).0 k)))
]
  where
    from_queued : {s : ScanState} → s ⟶ ScanState.scope_verifying → s ≡ ScanState.queued
    from_queued start = refl

-- A run of a scan that is not queued raises `InvalidTransition` at once and commits nothing, so a
-- second run of a scan, after a crash or a pause, never resumes it.
pub run_scan-not_queued :
    (f : Facts) (scan : ScanRow)
    → scan.state ≢ ScanState.queued
    → (run_scan f scan
        ≡ raise (
            invalid
              (MachineError.invalid_transition scan.state ScanState.scope_verifying)
              (with_phase ScanPhaseName.scope_verifying (session_of scan))))
      × ((session_at_end (run_scan f scan)).committed ≡ [])
unfolding run_scan verify_scope transition
run_scan-not_queued f scan n =
    let k = no_start (session_of scan).machine n in (rw k refl, rw k refl)

-- A run of a queued scan that no exception of reconnaissance, logins, crawl or merge leaves, and in
-- which the database refuses no flush and no commit, ends as blocked if the target is not
-- scannable, as failed if it logs personas in and none is available, and else paused.
pub run_scan-end :
    (f : Facts) (scan : ScanRow) (r : ReconResult)
    → f.recon_result ≡ ok r
    → f.login ≡ ok tt
    → f.crawl (crawled_as f) ≡ ok tt
    → f.merge ≡ ok tt
    → ((n : ℕ) → f.flush n ≡ ok tt)
    → (session_at_end (run_scan f (queued_scan scan))).scan.state ≡ expected_end f
unfolding run_scan
run_scan-end f scan r a l b c w = elim (Bool-cases f.is_scannable) [
  | inr k ↦
      Stops-end ScanState.blocked_unverified (run_scan f (queued_scan scan)) (
        Stops-bind ScanState.blocked_unverified _ (map_surfaces f) (
          Stops-bind ScanState.blocked_unverified _ (run_crawl_phase f) (
            Stops-bind ScanState.blocked_unverified _ (establish_auth f) (
              Stops-bind ScanState.blocked_unverified _ (run_recon_phase f)
                (verify_scope-Stops f w (session_of (queued_scan scan)) k (refl, refl))))))
      ∙ end_of_blocked (logs_in f && is_empty (available_personas f)) k
  | inl k ↦
      let started : Goes ScanState.recon
          (verify_scope f (session_of (queued_scan scan)) >>= run_recon_phase f) =
        Goes-then ScanState.scope_verifying ScanState.recon
          (verify_scope f (session_of (queued_scan scan))) (run_recon_phase f)
          (verify_scope-Goes f w (session_of (queued_scan scan)) k (refl, refl))
          (λ s g. run_recon_phase-Goes f w s r a g) in
      elim (Bool-cases (logs_in f && is_empty (available_personas f))) [
        | inl e ↦
            Stops-end ScanState.failed_auth (run_scan f (queued_scan scan)) (
              Stops-bind ScanState.failed_auth _ (map_surfaces f) (
                Stops-bind ScanState.failed_auth _ (run_crawl_phase f) (
                  Stops-then ScanState.recon ScanState.failed_auth _ (establish_auth f) started
                    (λ s g. establish_auth-Stops f w s l g e))))
            ∙ end_of_scanned true k e
        | inr e ↦
            Goes-end ScanState.paused (run_scan f (queued_scan scan)) (
              Goes-then ScanState.surface_mapping ScanState.paused _ (map_surfaces f)
                (Goes-then ScanState.crawling ScanState.surface_mapping _ (run_crawl_phase f)
                  (Goes-then ScanState.recon ScanState.crawling _ (establish_auth f) started
                    (λ s g. establish_auth-Goes f w s l g e))
                  (λ s g. run_crawl_phase-Goes f w s b g))
                (λ s g. map_surfaces-Goes f w s c g))
            ∙ end_of_scanned false k e
      ]
]
