-- ===== src/Auth/Cookies.antt =====
-- The cookies that a persona's session sends.
use security_tool.Prelude.{
  false, not, ◌&&◌, ◌||◌, List, [], ◌∷◌, ◌++◌, Text, ◌==◌, text_eq, text_beq, text_beq_iff,
  ends_with, ends_with_split, ◌≡◌, refl, Bool-cases, inl, inr, ◌⊎◌, Memᴰ, arith,
}
use security_tool.Transcript.{Headers}
use security_tool.Engine.{insert}
use security_tool.Auth.{
  Cookie, PersonaSession, or_empty, is_set, domain_matches, cookie_domain, is_foreign,
  collect_cookies, all_cookies, cookies, session_state,
}

mem_insert :
    (k v : Text) (d : Headers) {x : Text × Text} → Memᴰ x (insert k v d) → (x ≡ (k, v)) ⊎ Memᴰ x d
unfolding insert
mem_insert k v [] (Memᴰ.head e) = inl e
mem_insert k v [] (Memᴰ.tail m) = elim m [ ]
mem_insert k v ((j, w) ∷ d) {x} m = elim (Bool-cases (j == k)) [
  | inl e ↦ replaced (rw e at m)
  | inr e ↦ kept (mem_insert k v d) (rw e at m)
]
  where
    replaced : Memᴰ x ((k, v) ∷ d) → (x ≡ (k, v)) ⊎ Memᴰ x ((j, w) ∷ d)
    replaced (Memᴰ.head e) = inl e
    replaced (Memᴰ.tail n) = inr (Memᴰ.tail n)

    kept :
        (Memᴰ x (insert k v d) → (x ≡ (k, v)) ⊎ Memᴰ x d)
        → Memᴰ x ((j, w) ∷ insert k v d)
        → (x ≡ (k, v)) ⊎ Memᴰ x ((j, w) ∷ d)
    kept ih (Memᴰ.head e) = inr (Memᴰ.head e)
    kept ih (Memᴰ.tail n) = elim (ih n) [ inl e ↦ inl e | inr r ↦ inr (Memᴰ.tail r) ]

-- The cookie is for the host of the target: its domain is the host or one above it, or either of
-- them is not known.
abbrev pub IsForTarget : PersonaSession → Cookie → Type 0
IsForTarget p c =
    (or_empty p.target_host ≡ [])
    ⊎ (cookie_domain c ≡ [])
    ⊎ (or_empty p.target_host ≡ cookie_domain c)
    ⊎ ((sub : Text) × (or_empty p.target_host ≡ sub ++ b'.' ∷ cookie_domain c))

is_set_none : (s : Text) → is_set s ≡ false → s ≡ []
is_set_none [] h = refl
is_set_none (c ∷ s) h = cc

home_by :
    (host d : Text)
    → (is_set host && is_set d && not (host == d || ends_with host (b'.' ∷ d))) ≡ false
    → (host ≡ []) ⊎ (d ≡ []) ⊎ (host ≡ d) ⊎ ((sub : Text) × (host ≡ sub ++ b'.' ∷ d))
home_by [] d h = inl refl
home_by (x ∷ host) [] h = inr (inl refl)
home_by (x ∷ host) (y ∷ d) h = elim (Bool-cases (text_beq (x ∷ host) (y ∷ d))) [
  | inl e ↦ inr (inr (inl ((text_beq_iff (x ∷ host) (y ∷ d)).0 e)))
  | inr e ↦ inr (inr (inr (ends_with_split (x ∷ host) (b'.' ∷ y ∷ d) (ground (arith, h, e)))))
]

is_foreign-IsForTarget :
    (p : PersonaSession) (c : Cookie) → is_foreign p c ≡ false → IsForTarget p c
unfolding is_foreign domain_matches
is_foreign-IsForTarget p c h = home_by (or_empty p.target_host) (cookie_domain c) h

abbrev IsStored : PersonaSession → List Cookie → Text × Text → Type 0
IsStored p cs x = (c : Cookie) × Memᴰ c cs × (x ≡ (c.name, c.value)) × IsForTarget p c

collect_cookies-IsStored :
    (p : PersonaSession) (cs : List Cookie) (result : Headers) {x : Text × Text}
    → Memᴰ x (collect_cookies p cs result)
    → Memᴰ x result ⊎ IsStored p cs x
unfolding collect_cookies
collect_cookies-IsStored p [] result m = inl m
collect_cookies-IsStored p (c ∷ cs) result {x} m = elim (Bool-cases (is_foreign p c)) [
  | inl e ↦ later (collect_cookies-IsStored p cs result (rw e at m))
  | inr e ↦ elim (collect_cookies-IsStored p cs (insert c.name c.value result) (rw e at m)) [
    | inr h ↦ later (inr h)
    | inl n ↦ elim (mem_insert c.name c.value result n) [
      | inl f ↦ inr (c, Memᴰ.head refl, f, is_foreign-IsForTarget p c e)
      | inr o ↦ inl o
    ]
  ]
]
  where
    later : Memᴰ x result ⊎ IsStored p cs x → Memᴰ x result ⊎ IsStored p (c ∷ cs) x
    later (inl n) = inl n
    later (inr (d, n, e, f)) = inr (d, Memᴰ.tail n, e, f)

-- Every cookie that a persona's session sends is one of its stored cookies, and is for the host
-- of the target: the cookie's domain is that host or one above it, unless the session has no
-- target host or the cookie no domain.
pub session_state-IsStored :
    (p : PersonaSession) {x : Text × Text}
    → Memᴰ x (session_state p).cookies
    → (c : Cookie) × Memᴰ c (all_cookies p.storage_state.cookies)
      × (x ≡ (c.name, c.value))
      × IsForTarget p c
unfolding session_state cookies
session_state-IsStored p m =
    elim (collect_cookies-IsStored p (all_cookies p.storage_state.cookies) [] m) [
      | inl n ↦ elim n [ ]
      | inr h ↦ h
    ]
