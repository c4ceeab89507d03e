-- ===== src/Targets/Gate.antt =====
-- No scan without verified ownership and accepted authorization.
use security_tool.Prelude.{
  ℕ, Bool, true, false, ◌≡◌, ◌≢◌, refl, sym, ap, subst, List, [], ◌∷◌, Option, none, some, Text,
  arith, Bool-cases, inl, inr, Memᴰ, ok, raise, ◌⊎◌, find-some, find, ◌==◌, nat_eq, Option-cases,
  nat_beq_iff,
}
use security_tool.Targets.{
  OwnershipVerificationMethod, Target, World, verify_ownership, create_ownership_challenge,
  run_ownership_verification, verify_with, accept_authorization, create_scan, create_target, Call,
  challenge, verify, authorize, scan, TargetState, handle, handle_all, is_scannable,
  get_owned_target, HttpError, keep_target,
}

module _ (V A : Type 0) (K : OwnershipVerificationMethod → Text → Type 0) (domain : Text) where
  -- What holds of a target whose verification needs `V`, whose authorization needs `A` and whose
  -- challenge needs `K`.
  record IsBacked (t : Target) : Type 0 where
    at_domain : t.root_domain ≡ domain
    verified : t.ownership_verified ≡ true → V
    accepted : t.authorization_accepted ≡ true → A
    challenged :
        (m : OwnershipVerificationMethod) (token : Text)
        → t.ownership_verification_method ≡ some m
        → t.ownership_verification_token ≡ some token
        → K m token

  abbrev IsBackedState : TargetState → Type 0
  IsBackedState s = IsBacked s.target × (s.scans ≢ [] → V × A)

  challenge-IsBacked :
      (m : OwnershipVerificationMethod) (token : Text) (t : Target)
      → K m token
      → IsBacked t
      → IsBacked (create_ownership_challenge m token t)
  unfolding create_ownership_challenge
  challenge-IsBacked m token t k h = record {
    at_domain = h.at_domain;
    verified = λ e. cc;
    accepted = h.accepted;
    challenged = λ n s e f.
        let p : m ≡ n = cc in let q : token ≡ s = cc in subst (λ x. K x s) p (subst (K m) q k);
  }

  verify_with-IsBacked :
      (w : World) (now : ℕ) (om : Option OwnershipVerificationMethod) (ot : Option Text)
      (t : Target)
      → t.ownership_verification_method ≡ om
      → t.ownership_verification_token ≡ ot
      → ((m : OwnershipVerificationMethod) (token : Text)
          → K m token
          → (verify_ownership w m domain token).verified ≡ true
          → V)
      → (scans : List Text) → (scans ≢ [] → V × A)
      → IsBacked t
      → IsBackedState
          (keep_target (verify_with w now om ot t) (record { target = t; scans = scans }))
  verify_with-IsBacked w now none ot t a b evidence scans g h = (h, g)
  verify_with-IsBacked w now (some m) none t a b evidence scans g h = (h, g)
  verify_with-IsBacked w now (some m) (some []) t a b evidence scans g h = (h, g)
  verify_with-IsBacked w now (some m) (some (c ∷ token)) t a b evidence scans g h = (
    record {
      at_domain = h.at_domain;
      verified = λ e. evidence m (c ∷ token) (h.challenged m (c ∷ token) a b) (
          subst (λ (d : Text). (verify_ownership w m d (c ∷ token)).verified ≡ true) h.at_domain e);
      accepted = h.accepted;
      challenged = h.challenged;
    },
    g,
  )

  authorize-IsBacked :
      (given : Bool) (now : ℕ) (s : TargetState)
      → (given ≡ true → A)
      → IsBackedState s
      → IsBackedState (keep_target (accept_authorization given now s.target) s)
  unfolding accept_authorization
  authorize-IsBacked false now s a h = h
  authorize-IsBacked true now s a (h, g) = (
    record {
      at_domain = h.at_domain;
      verified = h.verified;
      accepted = λ e. a refl;
      challenged = h.challenged;
    },
    g,
  )

  scan-IsBacked :
      (by : Text) (s : TargetState) → IsBackedState s → IsBackedState (handle (scan by) s)
  unfolding handle create_scan
  scan-IsBacked by s (h, g) = elim (Bool-cases (is_scannable s.target)) [
    | inr k ↦ rw k (h, g)
    | inl k ↦ rw k (h, λ n. (h.verified (ground (arith, k)), h.accepted (ground (arith, k))))
  ]

  handle-IsBacked :
      (c : Call) (s : TargetState)
      → ((m : OwnershipVerificationMethod) (token : Text) → c ≡ challenge m token → K m token)
      → ((w : World) (now : ℕ) (m : OwnershipVerificationMethod) (token : Text)
          → c ≡ verify w now
          → K m token
          → (verify_ownership w m domain token).verified ≡ true
          → V)
      → ((now : ℕ) → c ≡ authorize true now → A)
      → IsBackedState s
      → IsBackedState (handle c s)
  unfolding handle run_ownership_verification
  handle-IsBacked (challenge m token) s k v a (h, g) =
      (challenge-IsBacked m token s.target (k m token refl) h, g)
  handle-IsBacked (verify w now) s k v a (h, g) =
      verify_with-IsBacked w now s.target.ownership_verification_method
        s.target.ownership_verification_token s.target refl refl (λ m token. v w now m token refl)
        s.scans g h
  handle-IsBacked (authorize given now) s k v a h =
      authorize-IsBacked given now s (λ e. a now (ap (λ y. authorize y now) e)) h
  handle-IsBacked (scan by) s k v a h = scan-IsBacked by s h

  handle_all-IsBacked :
      (cs : List Call) (s : TargetState)
      → ((m : OwnershipVerificationMethod) (token : Text) → Memᴰ (challenge m token) cs → K m token)
      → ((w : World) (now : ℕ) (m : OwnershipVerificationMethod) (token : Text)
          → Memᴰ (verify w now) cs
          → K m token
          → (verify_ownership w m domain token).verified ≡ true
          → V)
      → ((now : ℕ) → Memᴰ (authorize true now) cs → A)
      → IsBackedState s
      → IsBackedState (handle_all cs s)
  unfolding handle_all
  handle_all-IsBacked [] s k v a h = h
  handle_all-IsBacked (c ∷ cs) s k v a h =
      handle_all-IsBacked cs (handle c s) (λ m token j. k m token (Memᴰ.tail j))
        (λ w now m token j. v w now m token (Memᴰ.tail j)) (λ now j. a now (Memᴰ.tail j))
        (handle-IsBacked c s (λ m token e. k m token (Memᴰ.head (sym e)))
          (λ w now m token e. v w now m token (Memᴰ.head (sym e)))
          (λ now e. a now (Memᴰ.head (sym e))) h)

-- If a scan exists after any calls on a target that was just created, then among these calls are a
-- challenge, a verification at which the domain showed the token of that challenge in the way it
-- asks for, and an acceptance of the authorization.
pub handle_all-gate :
    (id org : ℕ) (domain name : Text) (production : Bool) (cs : List Call)
    → (handle_all cs
        (record { target = create_target id org domain name production; scans = [] })).scans
      ≢ []
    → ((m : OwnershipVerificationMethod) × (token : Text) × (w : World) × (now : ℕ) × Memᴰ
          (challenge m token)
          cs
        × Memᴰ (verify w now) cs
        × ((verify_ownership w m domain token).verified ≡ true))
      × ((now : ℕ) × Memᴰ (authorize true now) cs)
unfolding create_target
handle_all-gate id org domain name production cs n =
    (handle_all-IsBacked
        ((m : OwnershipVerificationMethod) × (token : Text) × (w : World) × (now : ℕ) × Memᴰ
            (challenge m token) cs
          × Memᴰ (verify w now) cs
          × ((verify_ownership w m domain token).verified ≡ true))
        ((now : ℕ) × Memᴰ (authorize true now) cs) (λ m token. Memᴰ (challenge m token) cs) domain
        cs (record { target = create_target id org domain name production; scans = [] })
        (λ m token j. j) (λ w now m token j k e. (m, token, w, now, k, j, e)) (λ now j. (now, j))
        (
          record {
            at_domain = refl;
            verified = λ e. cc;
            accepted = λ e. cc;
            challenged = λ m token e f. cc;
          },
          λ x. absurd (x refl),
        )).1
      n

-- `get_owned_target` gives a target of the caller's organization that has the id asked for, or
-- raises 404: a target of another organization is answered like one that does not exist.
pub get_owned_target_sound :
    (targets : List Target) (org target_id : ℕ)
    → ((t : Target) × (get_owned_target targets org target_id ≡ ok t)
        × Memᴰ t targets
        × (t.organization_id ≡ org)
        × (t.id ≡ target_id))
      ⊎ (get_owned_target targets org target_id ≡ raise HttpError.not_found)
unfolding get_owned_target
get_owned_target_sound targets org target_id =
    elim (Option-cases (find (λ (t : Target). t.id == target_id) targets)) [
      | inl n ↦ inr (rw n refl)
      | inr (t, f) ↦
          let (j, i) = find-some (λ (t : Target). t.id == target_id) targets f in
          elim (Bool-cases (t.organization_id == org)) [
            | inl o ↦ inl (
              t,
              rw (f, o) refl,
              j,
              (nat_beq_iff t.organization_id org).0 o,
              (nat_beq_iff t.id target_id).0 i,
            )
            | inr o ↦ inr (rw (f, o) refl)
          ]
    ]
