-- ===== src/Runner/Kept.antt =====
-- A round of the logins: what it keeps of the rounds before.
use mathlib.Core.Bool.{true≢false}
use security_tool.Prelude.{
  ℕ, ◌+◌, Bool, true, false, List, [], ◌∷◌, ◌++◌, map, Option, none, some, Text, text_eq, text_beq,
  text_beq_iff, if◌then◌else◌, contains, All, ok, raise_no_ok, ok_inj, All-snoc, ◌≡◌, refl, sym,
  subst, ◌∙◌, Bool-cases, inl, inr, arith,
}
use security_tool.Crypto.{Bytes, IsCipher, encrypt, decrypt}
use security_tool.Auth.{StorageState}
use security_tool.Personas.Login.{PersonaAuthResult, decrypt_secret, no_state}
use security_tool.Runner.Logins.{
  PersonaRow, Logins, Clients, set_session, session_for, logged_in, left_out,
}

session_for-set_session_self :
    (k : Text) (v : StorageState) (s : List (Text × StorageState))
    → session_for k (set_session k v s) ≡ some v
unfolding session_for set_session
session_for-set_session_self k v [] = rw ((text_beq_iff k k).1 refl) refl
session_for-set_session_self k v ((j, old) ∷ s) = elim (Bool-cases (text_beq j k)) [
  | inl e ↦ rw (e, (text_beq_iff k k).1 refl) refl
  | inr e ↦ rw (e, e) (session_for-set_session_self k v s)
]

session_for-set_session_other :
    (k j : Text) (v : StorageState) (s : List (Text × StorageState))
    → text_beq k j ≡ false
    → session_for j (set_session k v s) ≡ session_for j s
unfolding session_for set_session
session_for-set_session_other k j v [] h = rw h refl
session_for-set_session_other k j v ((i, old) ∷ s) h = elim (Bool-cases (text_beq i k)) [
  | inl e ↦ rw (e, h, (text_beq_iff i k).0 e, h) refl
  | inr e ↦ elim (Bool-cases (text_beq i j)) [
    | inl q ↦ rw (e, q) refl
    | inr q ↦ rw (e, q) (session_for-set_session_other k j v s h)
  ]
]

pub text_beq_sym : (s t : Text) → text_beq s t ≡ false → text_beq t s ≡ false
text_beq_sym s t h = elim (Bool-cases (text_beq t s)) [
  | inr e ↦ e
  | inl e ↦ absurd (true≢false (sym ((text_beq_iff s t).1 (sym ((text_beq_iff t s).0 e))) ∙ h))
]

-- The rows of the personas that are available.
abbrev pub count_available : List PersonaRow → ℕ
count_available [] = 0
count_available (row ∷ rows) = (if row.is_available then 1 else 0) + count_available rows

pub count_available-snoc :
    (rows : List PersonaRow) (row : PersonaRow)
    → count_available (rows ++ row ∷ [])
      ≡ count_available rows + (if row.is_available then 1 else 0)
count_available-snoc [] row = omega arith
count_available-snoc (r ∷ rows) row = omega (arith, count_available-snoc rows row)

module _ (c : Clients) where
  abbrev pub id_of : PersonaRow → Text
  id_of row = c.str row.persona.id

  -- What is kept of a login: nothing, or a session in memory and its encrypted copy.
  abbrev pub HasSession : Bytes → List (Text × StorageState) → PersonaRow → Bool → Type 0
  HasSession key sessions row false = session_for (id_of row) sessions ≡ none
  HasSession key sessions row true =
      (state : Option StorageState) × (ciphertext : Bytes) × (row.session_state_ciphertext
        ≡ some ciphertext)
      × (decrypt_secret c.fernet key ciphertext ≡ ok (c.dumps state))
      × (session_for (id_of row) sessions ≡ some (no_state state))

  abbrev pub IsBacked : Bytes → List (Text × StorageState) → PersonaRow → Type 0
  IsBacked key sessions row = HasSession key sessions row row.is_available

  HasSession-subst :
      (key : Bytes) (old new : List (Text × StorageState)) (row : PersonaRow) (b : Bool)
      → session_for (id_of row) new ≡ session_for (id_of row) old
      → HasSession key old row b
      → HasSession key new row b
  HasSession-subst key old new row false e h = e ∙ h
  HasSession-subst key old new row true e (state, ciphertext, a, b, k) =
      (state, ciphertext, a, b, e ∙ k)

  abbrev pub ids : List PersonaRow → List Text
  ids rows = map id_of rows

  -- What holds between two rounds of the loop, `rows` being those to come.
  abbrev pub IsSound : Bytes → List PersonaRow → Logins → Type 0
  IsSound key rows s =
      All (IsBacked key s.in_memory_sessions) s.rows
      × All (λ row. contains (ids rows) (id_of row) ≡ false) s.rows
      × All (λ row. session_for (id_of row) s.in_memory_sessions ≡ none) rows
      × (s.personas_available ≡ count_available s.rows)

  All-imp :
      (P Q R : PersonaRow → Type 0) (rows : List PersonaRow)
      → ((row : PersonaRow) → P row → Q row → R row)
      → All P rows
      → All Q rows
      → All R rows
  All-imp P Q R [] f h k = tt
  All-imp P Q R (row ∷ rows) f h k = (f row h.0 k.0, All-imp P Q R rows f h.1 k.1)

  pub encrypt-decrypts :
      (cipher : IsCipher c.fernet) (key iv ciphertext : Bytes) (t : Text)
      → encrypt c.fernet key iv (c.fernet.encode t) ≡ ok ciphertext
      → decrypt_secret c.fernet key ciphertext ≡ ok t
  unfolding encrypt decrypt_secret decrypt
  encrypt-decrypts cipher key iv ciphertext t h = elim (Bool-cases (c.fernet.is_valid key)) [
    | inr e ↦ absurd (raise_no_ok (rw e at h))
    | inl e ↦
        let same = ok_inj (rw e at h) in
        rw
          (e, sym same, cipher.decrypt-encrypt key iv (c.fernet.encode t) e, cipher.decode-encode t)
          refl
  ]

  later_differs :
      (row p : PersonaRow) (rows : List PersonaRow)
      → contains (ids (row ∷ rows)) (id_of p) ≡ false
      → (text_beq (id_of row) (id_of p) ≡ false) × (contains (ids rows) (id_of p) ≡ false)
  unfolding contains
  later_differs row p rows h = (ground arith, ground arith)

  pub left_out-IsSound :
      (key : Bytes) (row : PersonaRow) (rows : List PersonaRow) (s : Logins) (r : PersonaAuthResult)
      → contains (ids rows) (id_of row) ≡ false
      → r.available ≡ false
      → IsSound key (row ∷ rows) s
      → IsSound key rows (left_out row r s)
  left_out-IsSound key row rows s r new e (backed, apart, fresh, count) = (
    All-snoc (IsBacked key s.in_memory_sessions) s.rows _ backed
        (subst (HasSession key s.in_memory_sessions row) (sym e) fresh.0),
    All-snoc (λ p. contains (ids rows) (id_of p) ≡ false) s.rows _
        (All-imp _ _ _ s.rows (λ p h u. (later_differs row p rows h).1) apart apart) new,
    fresh.1,
    rw (count_available-snoc, e) (omega (arith, count)),
  )

  pub all_differ :
      (k : Text) (rows : List PersonaRow)
      → contains (ids rows) k ≡ false
      → All (λ p. text_beq k (id_of p) ≡ false) rows
  unfolding contains
  all_differ k [] h = tt
  all_differ k (p ∷ rows) h =
      (text_beq_sym (id_of p) k (ground arith), all_differ k rows (ground arith))

  pub logged_in-IsSound :
      (key : Bytes) (row : PersonaRow) (rows : List PersonaRow) (s : Logins) (r : PersonaAuthResult)
      (ciphertext : Bytes)
      → contains (ids rows) (id_of row) ≡ false
      → r.available ≡ true
      → decrypt_secret c.fernet key ciphertext ≡ ok (c.dumps r.storage_state)
      → IsSound key (row ∷ rows) s
      → IsSound key rows (logged_in (id_of row) row r ciphertext s)
  logged_in-IsSound key row rows s r ciphertext new e opens (backed, apart, fresh, count) =
      let k = id_of row in
      let v = no_state r.storage_state in
      let sessions = set_session k v s.in_memory_sessions in
      (
        All-snoc (IsBacked key sessions) s.rows _
            (All-imp _ _ _ s.rows
              (λ p h b.
                HasSession-subst key s.in_memory_sessions sessions p p.is_available
                  (session_for-set_session_other k (id_of p) v s.in_memory_sessions
                    (later_differs row p rows h).0)
                  b)
              apart backed)
            (subst (HasSession key sessions (kept k)) (sym e) (
              r.storage_state,
              ciphertext,
              refl,
              opens,
              session_for-set_session_self k v s.in_memory_sessions,
            )),
        All-snoc (λ p. contains (ids rows) (id_of p) ≡ false) s.rows _
            (All-imp _ _ _ s.rows (λ p h u. (later_differs row p rows h).1) apart apart) new,
        All-imp _ _ _ rows
            (λ p d n. session_for-set_session_other k (id_of p) v s.in_memory_sessions d ∙ n)
            (all_differ k rows new) fresh.1,
        rw (count_available-snoc, e) (omega (arith, count)),
      )
    where
      kept : Text → PersonaRow
      kept k = record {
        persona = row.persona;
        is_available = r.available;
        unavailable_reason = r.unavailable_reason;
        session_state_ciphertext = some ciphertext;
        session_oracle = r.session_oracle;
      }

  pub none_yet : (rows : List PersonaRow) → All (λ row. session_for (id_of row) [] ≡ none) rows
  unfolding session_for
  none_yet [] = tt
  none_yet (row ∷ rows) = (refl, none_yet rows)
