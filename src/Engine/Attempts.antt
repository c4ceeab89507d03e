-- ===== src/Engine/Attempts.antt =====
-- How often the engine sends, and what it reports and records.
use security_tool.Prelude.{
  ℕ, zero, suc, ◌+◌, ◌≤◌, Bool, true, false, ◌≡◌, refl, List, [], ◌∷◌, ◌++◌, Option, some, none,
  Text, arith, Outcome, raise, Memᴰ, All, All-append, All_at, Bool-cases, inl, inr, ◌⊎◌, contains,
  if◌then◌else◌, text_eq, nat_eq,
}
use security_tool.Transcript.{Headers, Body, RecordedRequest, RecordedResponse}
use security_tool.Engine.{
  HttpEngine, SessionState, Attempt, SendError, Event, LoopState, send_loop,
  rate_limited_status_codes, idempotent_methods, max_attempts, start_state, transmit,
  request_headers, failed_with, answered_with, escaped_with, conclude, error_if_lost, not_sent,
  unreadable, client_error, EngineError, EngineResponse, timeout, transport_error, backpressure,
  success, sent, acquired, recorded, timed_out, transport_failed, answered,
}

-- How many events of a kind there are.
abbrev pub count : (Event → Bool) → List Event → ℕ
count p [] = 0
count p (x ∷ xs) = if p x then suc (count p xs) else count p xs

abbrev pub is_sent : Event → Bool
is_sent (sent m u h) = true
is_sent acquired = false
is_sent (backpressure n) = false
is_sent success = false
is_sent (recorded p q r e) = false

abbrev pub is_recorded : Event → Bool
is_recorded (recorded p q r e) = true
is_recorded acquired = false
is_recorded (backpressure n) = false
is_recorded success = false
is_recorded (sent m u h) = false

count-append :
    (p : Event → Bool) (xs ys : List Event) → count p (xs ++ ys) ≡ count p xs + count p ys
count-append p [] ys = omega arith
count-append p (x ∷ xs) ys = ground (arith, count-append p xs ys)

-- A request that is sent is the one that the loop is to send.
abbrev IsOf : Text → Text → Headers → Event → Type 0
IsOf m u h x = is_sent x ≡ true → x ≡ sent m u h

module _ (client : ℕ → Attempt) (m u : Text) (h : Headers) where
  abbrev after_loop : ℕ → LoopState → LoopState
  after_loop left s = send_loop client (sent m u h) left s

  -- A round of the loop, to the state `t`: the request is sent once, and the loop goes on or ends.
  abbrev IsRound : ℕ → LoopState → LoopState → Type 0
  IsRound left s t =
      ((e : SendError) × (t ≡ after_loop left (failed_with e (sent m u h) s)))
      ⊎ ((r : RecordedResponse) × (t
            ≡ after_loop left (answered_with r (sent m u h) (backpressure r.status_code) s)))
      ⊎ ((r : RecordedResponse) × (t ≡ answered_with r (sent m u h) success s))
      ⊎ ((e : Text) × (t ≡ escaped_with e [] s))
      ⊎ ((e : Text) × (t ≡ escaped_with e (sent m u h ∷ []) s))

  loop-IsRound : (left : ℕ) (s : LoopState) → IsRound left s (after_loop (suc left) s)
  unfolding send_loop
  loop-IsRound left s =
      elim (client s.attempt)
        as (λ a. IsRound left s (elim a [
          | timed_out ↦ send_loop client (sent m u h) left (failed_with timeout (sent m u h) s)
          | transport_failed ↦
              send_loop client (sent m u h) left (failed_with transport_error (sent m u h) s)
          | not_sent e ↦ escaped_with e [] s
          | unreadable e ↦ escaped_with e (sent m u h ∷ []) s
          | answered r ↦ elim (contains rate_limited_status_codes r.status_code) [
            | true ↦
                send_loop client (sent m u h) left
                  (answered_with r (sent m u h) (backpressure r.status_code) s)
            | false ↦ answered_with r (sent m u h) success s
          ]
        ])) [
          | timed_out ↦ inl (timeout, refl)
          | transport_failed ↦ inl (transport_error, refl)
          | not_sent e ↦ inr (inr (inr (inl (e, refl))))
          | unreadable e ↦ inr (inr (inr (inr (e, refl))))
          | answered r ↦ elim (Bool-cases (contains rate_limited_status_codes r.status_code)) [
            | inl b ↦ inr (inl (r, rw b refl))
            | inr b ↦ inr (inr (inl (r, rw b refl)))
          ]
        ]

  loop-sends_end :
      (s : LoopState)
      → (count is_sent s.events ≤ count is_sent (after_loop 0 s).events)
        × (count is_sent (after_loop 0 s).events ≤ count is_sent s.events + 0)
        × (count is_recorded (after_loop 0 s).events ≡ count is_recorded s.events)
  unfolding send_loop
  loop-sends_end s = (omega arith, omega arith, refl)

  loop-sends :
      (left : ℕ) (s : LoopState)
      → (count is_sent s.events ≤ count is_sent (after_loop left s).events)
        × (count is_sent (after_loop left s).events ≤ count is_sent s.events + left)
        × (count is_recorded (after_loop left s).events ≡ count is_recorded s.events)
  loop-sends zero s = loop-sends_end s
  loop-sends (suc left) s = elim (loop-IsRound left s) [
    | inl (e, q) ↦
        let (a, b, c) = loop-sends left (failed_with e (sent m u h) s) in
        rw q (
          ground (
            arith,
            a,
            b,
            c,
            count-append is_sent s.events (sent m u h ∷ []),
            count-append is_recorded s.events (sent m u h ∷ []),
          ))
    | inr (inl (r, q)) ↦
        let v = backpressure r.status_code in
        let (a, b, c) = loop-sends left (answered_with r (sent m u h) v s) in
        rw q (
          ground (
            arith,
            a,
            b,
            c,
            count-append is_sent s.events (sent m u h ∷ v ∷ []),
            count-append is_recorded s.events (sent m u h ∷ v ∷ []),
          ))
    | inr (inr (inl (r, q))) ↦ rw q (
        ground (
          arith,
          count-append is_sent s.events (sent m u h ∷ success ∷ []),
          count-append is_recorded s.events (sent m u h ∷ success ∷ []),
        ))
    | inr (inr (inr (inl (e, q)))) ↦
        rw q
          (ground (arith, count-append is_sent s.events [], count-append is_recorded s.events []))
    | inr (inr (inr (inr (e, q)))) ↦ rw q (
        ground (
          arith,
          count-append is_sent s.events (sent m u h ∷ []),
          count-append is_recorded s.events (sent m u h ∷ []),
        ))
  ]

  loop-sends_once :
      (left : ℕ) (s : LoopState)
      → s.escaped ≡ none
      → ((e : Text) × ((after_loop (suc left) s).escaped ≡ some e))
        ⊎ (count is_sent s.events + 1 ≤ count is_sent (after_loop (suc left) s).events)
  loop-sends_once left s x = elim (loop-IsRound left s) [
    | inl (e, q) ↦
        let (a, b, c) = loop-sends left (failed_with e (sent m u h) s) in
        rw q (inr (ground (arith, a, count-append is_sent s.events (sent m u h ∷ []))))
    | inr (inl (r, q)) ↦
        let v = backpressure r.status_code in
        let (a, b, c) = loop-sends left (answered_with r (sent m u h) v s) in
        rw q (inr (ground (arith, a, count-append is_sent s.events (sent m u h ∷ v ∷ []))))
    | inr (inr (inl (r, q))) ↦
        rw q (inr (ground (arith, count-append is_sent s.events (sent m u h ∷ success ∷ []))))
    | inr (inr (inr (inl (e, q)))) ↦ rw q (inl (e, refl))
    | inr (inr (inr (inr (e, q)))) ↦ rw q (inl (e, refl))
  ]

  loop-IsOf_end :
      (s : LoopState) → All (IsOf m u h) s.events → All (IsOf m u h) (after_loop 0 s).events
  unfolding send_loop
  loop-IsOf_end s a = a

  loop-IsOf :
      (left : ℕ) (s : LoopState)
      → All (IsOf m u h) s.events
      → All (IsOf m u h) (after_loop left s).events
  loop-IsOf zero s a = loop-IsOf_end s a
  loop-IsOf (suc left) s a = elim (loop-IsRound left s) [
    | inl (e, q) ↦ rw q (
        loop-IsOf left (failed_with e (sent m u h) s)
          (All-append (IsOf m u h) s.events _ a (λ k. refl, tt)))
    | inr (inl (r, q)) ↦ rw q (
        loop-IsOf left (answered_with r (sent m u h) (backpressure r.status_code) s)
          (All-append (IsOf m u h) s.events _ a (λ k. refl, (λ k. cc, tt))))
    | inr (inr (inl (r, q))) ↦
        rw q (All-append (IsOf m u h) s.events _ a (λ k. refl, (λ k. cc, tt)))
    | inr (inr (inr (inl (e, q)))) ↦ rw q (All-append (IsOf m u h) s.events [] a tt)
    | inr (inr (inr (inr (e, q)))) ↦ rw q (All-append (IsOf m u h) s.events _ a (λ k. refl, tt))
  ]

-- What a transmission does: it sends at most `bound` times, and an exception of the client leaves it
-- and nothing is recorded, or it sends at least once and records once.
abbrev pub IsTransmitted : ℕ → Outcome EngineError EngineResponse × List Event → Type 0
IsTransmitted bound (result, events) =
    (count is_sent events ≤ bound)
    × (((e : Text) × (result ≡ raise (client_error e)) × (count is_recorded events ≡ 0))
        ⊎ ((1 ≤ count is_sent events) × (count is_recorded events ≡ 1)))

conclude-IsTransmitted :
    (p : SessionState) (u : Text) (req : RecordedRequest) (bound : ℕ) (s : LoopState)
    (o : Option Text)
    → count is_sent s.events ≤ bound
    → count is_recorded s.events ≡ 0
    → ((e : Text) × (o ≡ some e)) ⊎ (1 ≤ count is_sent s.events)
    → IsTransmitted bound (conclude p u req s o)
conclude-IsTransmitted p u req bound s (some e) a b c = (a, inl (e, refl, b))
conclude-IsTransmitted p u req bound s none a b (inl (e, k)) = cc
conclude-IsTransmitted p u req bound s none a b (inr c) =
    let z = recorded p.persona_id req s.response (error_if_lost s.response s.error) in
    let x = count-append is_sent s.events (z ∷ []) in
    let y = count-append is_recorded s.events (z ∷ []) in
    (omega (arith, a, x), inr (omega (arith, c, x), omega (arith, b, y)))

conclude-IsOf :
    (m u : Text) (h : Headers) (p : SessionState) (url : Text) (req : RecordedRequest)
    (s : LoopState) (o : Option Text)
    → All (IsOf m u h) s.events
    → All (IsOf m u h) (conclude p url req s o).1
conclude-IsOf m u h p url req s (some e) a = a
conclude-IsOf m u h p url req s none a = All-append (IsOf m u h) s.events _ a (λ w. cc, tt)

-- A request that the guards admit is sent at most `max_attempts` times, which is once for a method
-- that is not idempotent. Then it was sent at least once and its transcript is recorded exactly
-- once; or the client raised what is neither a timeout nor a transport error, which `request` lets
-- through without recording a transcript. The rate limiter and the recorder do not raise.
pub transmit-sends :
    (e : HttpEngine) (client : ℕ → Attempt) (p : SessionState) (m u : Text) (h : Headers)
    (b : Option Body)
    → IsTransmitted
        (suc (if contains idempotent_methods m then e.max_retries else 0))
        (transmit e client p m u h b)
unfolding transmit max_attempts
transmit-sends e client p m u h b =
    let hs = request_headers e p h in
    let left = if contains idempotent_methods m then e.max_retries else 0 in
    let t = send_loop client (sent m u hs) (suc left) start_state in
    let (x, y, z) = loop-sends client m u hs (suc left) start_state in
    conclude-IsTransmitted p u _ (suc left) t t.escaped (omega (arith, y)) (omega (arith, z))
      (loop-sends_once client m u hs left start_state refl)

-- Whatever an admitted request sends is its method, its URL and its headers.
pub transmit-sent :
    (e : HttpEngine) (client : ℕ → Attempt) (p : SessionState) (m u : Text) (h : Headers)
    (b : Option Body) (x : Event)
    → Memᴰ x (transmit e client p m u h b).1
    → is_sent x ≡ true
    → x ≡ sent m u (request_headers e p h)
unfolding transmit
transmit-sent e client p m u h b x k v =
    let hs = request_headers e p h in
    let req : RecordedRequest = record { method = m; url = u; headers = hs; body = b } in
    let left = max_attempts e m in
    let t = send_loop client (sent m u hs) left start_state in
    All_at (IsOf m u hs) _
      (conclude-IsOf m u hs p u req t t.escaped
        (loop-IsOf client m u hs left start_state (λ w. cc, tt)))
      k v
