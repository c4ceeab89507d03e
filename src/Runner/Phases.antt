-- ===== src/Runner/Phases.antt =====
-- The state that each phase of a run leaves.
use security_tool.Prelude.{
  arith, true, ℕ, length, Bool, false, ◌&&◌, ◌≡◌, refl, contains, ok, Bool-cases, inl, inr,
}
use security_tool.Machine.{
  ScanState, ScanPhaseName, PhaseStatus, phase_name_eq, state_eq, state_index, transition,
  can_transition, is_terminal, linear_transitions,
}
use security_tool.Runner.{
  oracle_notes, phase_to, after_recon, advance, commit, commit_and_return, auth_outcome, noted,
  with_phase, Facts, Session, ReconResult, verify_scope, run_recon_phase, establish_auth,
  run_crawl_phase, map_surfaces, configured, available_personas, crawled_as, logs_in, is_empty,
}
use security_tool.Runner.Moves.{At, Goes, Stops, Goes-then, Stops-then, Stops-bind, advance-Goes}

module _ (f : Facts) (w : (n : ℕ) → f.flush n ≡ ok tt) where
  commit-Goes : (a : ScanState) (s : Session) → At a s → Goes a (commit f s)
  unfolding Goes
  commit-Goes a s h = rw (w (length s.committed)) h

  commit-Stops : (a : ScanState) (s : Session) → At a s → Stops a (commit_and_return f s)
  unfolding Stops
  commit-Stops a s h = rw (w (length s.committed)) (h.1)

  pub verify_scope-Goes :
      (s : Session)
      → f.is_scannable ≡ true
      → At ScanState.queued s
      → Goes ScanState.scope_verifying (verify_scope f s)
  unfolding verify_scope can_transition is_terminal linear_transitions contains state_index
  verify_scope-Goes s k h =
      Goes-then ScanState.scope_verifying ScanState.scope_verifying
        (advance ScanState.scope_verifying (with_phase ScanPhaseName.scope_verifying s)) _
        (advance-Goes ScanState.queued ScanState.scope_verifying
          (with_phase ScanPhaseName.scope_verifying s) refl h)
        λ t g. rw k (commit-Goes ScanState.scope_verifying _ g)

  pub verify_scope-Stops :
      (s : Session)
      → f.is_scannable ≡ false
      → At ScanState.queued s
      → Stops ScanState.blocked_unverified (verify_scope f s)
  unfolding verify_scope can_transition is_terminal linear_transitions contains state_index
  verify_scope-Stops s k h =
      Stops-then ScanState.scope_verifying ScanState.blocked_unverified
        (advance ScanState.scope_verifying (with_phase ScanPhaseName.scope_verifying s)) _
        (advance-Goes ScanState.queued ScanState.scope_verifying
          (with_phase ScanPhaseName.scope_verifying s) refl h)
        λ t g. rw k (
          Stops-then ScanState.blocked_unverified ScanState.blocked_unverified
            (advance ScanState.blocked_unverified
              (phase_to ScanPhaseName.scope_verifying PhaseStatus.running t))
            _
            (advance-Goes ScanState.scope_verifying ScanState.blocked_unverified
              (phase_to ScanPhaseName.scope_verifying PhaseStatus.running t) refl g)
            λ u g'. commit-Stops ScanState.blocked_unverified _ g')

  pub run_recon_phase-Goes :
      (s : Session) (r : ReconResult)
      → f.recon_result ≡ ok r
      → At ScanState.scope_verifying s
      → Goes ScanState.recon (run_recon_phase f s)
  unfolding run_recon_phase can_transition is_terminal linear_transitions contains state_index
  run_recon_phase-Goes s r k h =
      Goes-then ScanState.recon ScanState.recon
        (advance ScanState.recon (with_phase ScanPhaseName.recon s)) _
        (advance-Goes ScanState.scope_verifying ScanState.recon (with_phase ScanPhaseName.recon s)
          refl h)
        λ t g.
          Goes-then ScanState.recon ScanState.recon
            (commit f (phase_to ScanPhaseName.recon PhaseStatus.running t)) _
            (commit-Goes ScanState.recon (phase_to ScanPhaseName.recon PhaseStatus.running t) g)
            λ u g'. rw k (by_notes u g')
    where
      by_notes : (u : Session) → At ScanState.recon u → Goes ScanState.recon (after_recon f u r)
      by_notes u g = elim (Bool-cases r.degraded) [
        | inl d ↦ rw d (commit-Goes ScanState.recon _ g)
        | inr d ↦ rw d (commit-Goes ScanState.recon _ g)
      ]

  pub run_crawl_phase-Goes :
      (s : Session)
      → f.crawl (crawled_as f) ≡ ok tt
      → At ScanState.crawling s
      → Goes ScanState.surface_mapping (run_crawl_phase f s)
  unfolding run_crawl_phase can_transition is_terminal linear_transitions contains state_index
  run_crawl_phase-Goes s b h =
      let n = ScanPhaseName.crawling in
      Goes-then ScanState.crawling ScanState.surface_mapping
        (commit f (phase_to n PhaseStatus.running (with_phase n s))) _
        (commit-Goes ScanState.crawling (phase_to n PhaseStatus.running (with_phase n s)) h)
        λ t g. rw b (
          Goes-then ScanState.surface_mapping ScanState.surface_mapping
            (advance ScanState.surface_mapping (phase_to n PhaseStatus.completed t)) _
            (advance-Goes ScanState.crawling ScanState.surface_mapping
              (phase_to n PhaseStatus.completed t) refl g)
            λ u g'. commit-Goes ScanState.surface_mapping u g')

  pub map_surfaces-Goes :
      (s : Session)
      → f.merge ≡ ok tt
      → At ScanState.surface_mapping s
      → Goes ScanState.paused (map_surfaces f s)
  unfolding map_surfaces can_transition is_terminal linear_transitions contains state_index
  map_surfaces-Goes s c h =
      let n = ScanPhaseName.surface_mapping in
      Goes-then ScanState.surface_mapping ScanState.paused
        (commit f (phase_to n PhaseStatus.running (with_phase n s))) _
        (commit-Goes ScanState.surface_mapping (phase_to n PhaseStatus.running (with_phase n s)) h)
        λ t g. rw c (
          Goes-then ScanState.paused ScanState.paused
            (advance ScanState.paused (phase_to n PhaseStatus.completed t)) _
            (advance-Goes ScanState.surface_mapping ScanState.paused
              (phase_to n PhaseStatus.completed t) refl g)
            λ u g'. commit-Goes ScanState.paused _ g')

  -- Personas are logged in and none is available.
  abbrev fails_auth : Bool
  fails_auth = logs_in f && is_empty (available_personas f)

  auth_outcome-Goes :
      (s : Session)
      → f.login ≡ ok tt
      → fails_auth ≡ false
      → At ScanState.auth_establishing s
      → Goes ScanState.auth_establishing (auth_outcome f s)
  unfolding Goes available_personas configured
  auth_outcome-Goes s l k h = elim (Bool-cases (is_empty (configured f))) [
    | inl e ↦ elim (Bool-cases f.has_master_key) [ inl m ↦ rw (e, m) h | inr m ↦ rw (e, m) h ]
    | inr e ↦ elim (Bool-cases f.has_master_key) [
      | inr m ↦ rw (e, m) h
      | inl m ↦
          let p : is_empty (available_personas f) ≡ false = rw (e, m) at k in rw (e, m, l, p) h
    ]
  ]

  auth_outcome-Stops :
      (s : Session)
      → f.login ≡ ok tt
      → fails_auth ≡ true
      → At ScanState.auth_establishing s
      → Stops ScanState.failed_auth (auth_outcome f s)
  unfolding can_transition is_terminal linear_transitions contains state_index available_personas
      configured Stops transition oracle_notes
  auth_outcome-Stops s l k h = elim (Bool-cases (is_empty (configured f))) [
    | inl e ↦ absurd (not_logged e)
    | inr e ↦ elim (Bool-cases f.has_master_key) [
      | inr m ↦ absurd (no_key e m)
      | inl m ↦
          let p : is_empty (available_personas f) ≡ true = rw (e, m) at k in
          rw (e, m, l, p)
            (Stops-then ScanState.failed_auth ScanState.failed_auth
              (advance ScanState.failed_auth (noted (oracle_notes f) s)) _
              (advance-Goes ScanState.auth_establishing ScanState.failed_auth
                (noted (oracle_notes f) s) refl h)
              λ t g. commit-Stops ScanState.failed_auth _ g)
    ]
  ]
    where
      not_logged : is_empty (configured f) ≡ true → ⊥
      not_logged e = ground (arith, k, e)

      no_key : is_empty (configured f) ≡ false → f.has_master_key ≡ false → ⊥
      no_key e m = ground (arith, k, e, m)

  module _ (s : Session) (l : f.login ≡ ok tt) (h : At ScanState.recon s) where
    abbrev started : Session
    started = with_phase ScanPhaseName.auth_establishing s

    pub establish_auth-Goes : fails_auth ≡ false → Goes ScanState.crawling (establish_auth f s)
    unfolding establish_auth can_transition is_terminal linear_transitions contains state_index
    establish_auth-Goes k =
        let n = ScanPhaseName.auth_establishing in
        Goes-then ScanState.auth_establishing ScanState.crawling
          (advance ScanState.auth_establishing started) _
          (advance-Goes ScanState.recon ScanState.auth_establishing started refl h)
          λ t g.
            Goes-then ScanState.auth_establishing ScanState.crawling
              (commit f (phase_to n PhaseStatus.running t)) _
              (commit-Goes ScanState.auth_establishing (phase_to n PhaseStatus.running t) g)
              λ u i.
                Goes-then ScanState.auth_establishing ScanState.crawling (auth_outcome f u) _
                  (auth_outcome-Goes u l k i)
                  λ v j.
                    Goes-then ScanState.crawling ScanState.crawling (advance ScanState.crawling v) _
                      (advance-Goes ScanState.auth_establishing ScanState.crawling v refl j)
                      λ x q. commit-Goes ScanState.crawling x q

    pub establish_auth-Stops : fails_auth ≡ true → Stops ScanState.failed_auth (establish_auth f s)
    unfolding establish_auth can_transition is_terminal linear_transitions contains state_index
    establish_auth-Stops k =
        let n = ScanPhaseName.auth_establishing in
        Stops-then ScanState.auth_establishing ScanState.failed_auth
          (advance ScanState.auth_establishing started) _
          (advance-Goes ScanState.recon ScanState.auth_establishing started refl h)
          λ t g.
            Stops-then ScanState.auth_establishing ScanState.failed_auth
              (commit f (phase_to n PhaseStatus.running t)) _
              (commit-Goes ScanState.auth_establishing (phase_to n PhaseStatus.running t) g)
              λ u i.
                Stops-bind ScanState.failed_auth (auth_outcome f u) _ (auth_outcome-Stops u l k i)
