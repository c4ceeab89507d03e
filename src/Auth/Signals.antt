-- ===== src/Auth/Signals.antt =====
-- An oracle tells the persona's response, and what it tells apart.
use mathlib.Core.Bool.{true≢false}
use security_tool.Prelude.{
  ℕ, true, false, not, ◌&&◌, List, [], ◌∷◌, ◌++◌, Option, none, some, Text, ◌==◌, text_eq, text_beq,
  text_beq_iff, nat_beq, nat_beq_iff, leb, length, contains, strip, has_sub, decimal, decimal_inj,
  Outcome, ok, raise, ◌≡◌, refl, sym, subst, ◌∙◌, Bool-cases, inl, inr, Memᴰ, ok_inj,
}
use security_tool.Url.{Library}
use security_tool.Engine.{
  HttpEngine, Attempt, Event, EngineError, EngineResponse, SessionState, anonymous_session, request,
}
use security_tool.Auth.Oracle.{
  min_length, OracleSignal, oracle_of_line, status_code, body_contains, SessionOracle,
  OracleEstablishmentResult, splitlines, response_text, unique_line, find_unique_line,
  oracle_matches, compare_responses, after_authenticated, establish_session_oracle,
}
use security_tool.Auth.Parts.{
  IsPart, IsPart-has_sub, IsPart-after, IsPart-before, strip-IsPart, lines_from-IsPart,
}

some_inj : {a b : Text} → ◌≡◌ {A = Option Text} (some a) (some b) → a ≡ b
some_inj h = cc

unique_line-mem :
    (lines anon_lines : List Text) {found : Text}
    → unique_line lines anon_lines ≡ some found
    → (line : Text) × Memᴰ line lines × (found ≡ strip line)
unfolding unique_line
unique_line-mem [] anon_lines h = cc
unique_line-mem (line ∷ lines) anon_lines {found} h =
    elim (Bool-cases
      (leb min_length (length (strip line)) && not (contains anon_lines (strip line)))) [
        | inl e ↦ (line, Memᴰ.head refl, sym (some_inj (rw e at h)))
        | inr e ↦
            let (l, m, f) = unique_line-mem lines anon_lines (rw e at h) in (l, Memᴰ.tail m, f)
      ]

-- The line that is found stands in the authenticated text.
find_unique_line-has_sub :
    (authenticated_text anonymous_text : Text) {found : Text}
    → find_unique_line authenticated_text anonymous_text ≡ some found
    → has_sub authenticated_text found ≡ true
unfolding find_unique_line splitlines
find_unique_line-has_sub authenticated_text anonymous_text {found} h =
    let (line, m, e) =
      unique_line-mem (splitlines authenticated_text) (splitlines anonymous_text) h in
    let (p, q, f) = strip-IsPart line in
    let (a, b, g) = lines_from-IsPart false [] authenticated_text line m in
    subst (λ x. has_sub authenticated_text x ≡ true) (sym e)
      (IsPart-has_sub (strip line) authenticated_text (
        subst (IsPart (strip line)) (sym g)
          (IsPart-after a (strip line) (line ++ b) (IsPart-before b (strip line) line (p, q, f)))))

decimal_differs : (m n : ℕ) → nat_beq m n ≡ false → text_beq (decimal n) (decimal m) ≡ false
decimal_differs m n h = elim (Bool-cases (text_beq (decimal n) (decimal m))) [
  | inr e ↦ e
  | inl e ↦
      let same = sym (decimal_inj n m ((text_beq_iff (decimal n) (decimal m)).0 e)) in
      absurd (true≢false (sym ((nat_beq_iff m n).1 same) ∙ h))
]

module _ (decode : List ℕ → Text) where
  abbrev pub IsRejecting : OracleSignal → SessionOracle → EngineResponse → Type 0
  IsRejecting status_code o anon = oracle_matches decode o anon ≡ false
  IsRejecting body_contains o anon = Unit

  -- What an oracle's establishment says of the two responses.
  abbrev pub IsTelling : EngineResponse → EngineResponse → Option SessionOracle → Type 0
  IsTelling auth anon none = auth.status_code ≡ anon.status_code
  IsTelling auth anon (some o) = (oracle_matches decode o auth ≡ true) × IsRejecting o.signal o anon

  oracle_of_line-IsTelling :
      (probe_method probe_url : Text) (auth anon : EngineResponse) (o : Option Text)
      → auth.status_code ≡ anon.status_code
      → find_unique_line (response_text decode auth) (response_text decode anon) ≡ o
      → IsTelling auth anon (oracle_of_line decode probe_method probe_url auth o).oracle
  unfolding oracle_matches
  oracle_of_line-IsTelling probe_method probe_url auth anon none same e = same
  oracle_of_line-IsTelling probe_method probe_url auth anon (some []) same e = same
  oracle_of_line-IsTelling probe_method probe_url auth anon (some (c ∷ line)) same e =
      (find_unique_line-has_sub (response_text decode auth) (response_text decode anon) e, tt)

  compare_responses-IsTelling :
      (probe_method probe_url : Text) (auth anon : EngineResponse)
      → IsTelling auth anon (compare_responses decode probe_method probe_url auth anon).oracle
  unfolding compare_responses oracle_matches
  compare_responses-IsTelling probe_method probe_url auth anon =
      elim (Bool-cases (nat_beq auth.status_code anon.status_code)) [
        | inr n ↦ rw n (
          (text_beq_iff (decimal auth.status_code) (decimal auth.status_code)).1 refl,
          decimal_differs auth.status_code anon.status_code n,
        )
        | inl e ↦
            let same : auth.status_code ≡ anon.status_code =
              (nat_beq_iff auth.status_code anon.status_code).0 e in
            elim (Bool-cases (response_text decode auth == response_text decode anon)) [
              | inl f ↦ rw (e, f) same
              | inr f ↦
                  rw (e, f)
                    (oracle_of_line-IsTelling probe_method probe_url auth anon
                      (find_unique_line (response_text decode auth) (response_text decode anon))
                      same refl)
            ]
      ]

  -- The two requests that establish an oracle: if no exception leaves them, both were answered,
  -- and the result is the comparison of the two answers.
  establish_session_oracle-ok :
      (lib : Library) (e : HttpEngine) (client anon_client : ℕ → Attempt) (persona : SessionState)
      (probe_url probe_method : Text) {r : OracleEstablishmentResult}
      → (establish_session_oracle decode lib e client anon_client persona probe_url probe_method).0
        ≡ ok r
      → (auth : EngineResponse) × (anon : EngineResponse) × ((request lib e client persona
            probe_method probe_url [] none [] false).0
          ≡ ok auth)
        × ((request lib e anon_client anonymous_session probe_method probe_url [] none [] false).0
            ≡ ok anon)
        × (r ≡ compare_responses decode probe_method probe_url auth anon)
  unfolding establish_session_oracle
  establish_session_oracle-ok lib e client anon_client persona probe_url probe_method {r} h =
      by_results (request lib e client persona probe_method probe_url [] none [] false)
        (request lib e anon_client anonymous_session probe_method probe_url [] none [] false) h
    where
      by_results :
          (first second : Outcome EngineError EngineResponse × List Event)
          → (after_authenticated decode probe_method probe_url first second).0 ≡ ok r
          → (auth : EngineResponse) × (anon : EngineResponse) × (first.0 ≡ ok auth)
            × (second.0 ≡ ok anon)
            × (r ≡ compare_responses decode probe_method probe_url auth anon)
      by_results (raise x, events) second k = cc
      by_results (ok auth, events) (raise x, later) k = cc
      by_results (ok auth, events) (ok anon, later) k = (auth, anon, refl, refl, sym (ok_inj k))

  -- An oracle is established on the answers to the persona's and to the anonymous request: it
  -- accepts the persona's, and one on the status code rejects the anonymous one. Where none is
  -- established, the two status codes are the same. The requests raise no exception.
  pub establish-IsTelling :
      (lib : Library) (e : HttpEngine) (client anon_client : ℕ → Attempt) (persona : SessionState)
      (probe_url probe_method : Text) {r : OracleEstablishmentResult}
      → (establish_session_oracle decode lib e client anon_client persona probe_url probe_method).0
        ≡ ok r
      → (auth : EngineResponse) × (anon : EngineResponse) × ((request lib e client persona
            probe_method probe_url [] none [] false).0
          ≡ ok auth)
        × ((request lib e anon_client anonymous_session probe_method probe_url [] none [] false).0
            ≡ ok anon)
        × IsTelling auth anon r.oracle
  establish-IsTelling lib e client anon_client persona probe_url probe_method h =
      let (auth, anon, a, b, c) =
        establish_session_oracle-ok lib e client anon_client persona probe_url probe_method h in
      (
        auth,
        anon,
        a,
        b,
        subst (λ (x : OracleEstablishmentResult). IsTelling auth anon x.oracle) (sym c)
            (compare_responses-IsTelling probe_method probe_url auth anon),
      )
