-- ===== src/Recon/Hosts.antt =====
-- The hosts of the assets: in order, so that none stands twice.
use mathlib.Core.Bool.{true≢false}
use security_tool.Prelude.{
  ℕ, zero, suc, Bool, true, false, List, [], ◌∷◌, map, Text, text_eq, text_beq, text_beq_iff, leb,
  length, take, contains, Distinct, All, ◌≡◌, refl, sym, ap, subst, ◌∙◌, Bool-cases, inl, inr,
  arith,
}
use security_tool.Recon.Tools.{World, text_lt, add, set_of, enumerate_subdomains}
use security_tool.Recon.Probes.{HttpProbeResult}
use security_tool.Recon.{
  DiscoveredAsset, max_candidate_hosts, resolved, assets_of, candidate_hosts, capped, tools,
  run_recon,
}

text_lt_irrefl : (s : Text) → text_lt s s ≡ false
unfolding text_lt
text_lt_irrefl [] = refl
text_lt_irrefl (c ∷ s) = ground (arith, text_lt_irrefl s)

text_lt_trans : (s t u : Text) → text_lt s t ≡ true → text_lt t u ≡ true → text_lt s u ≡ true
unfolding text_lt
text_lt_trans s [] u a b = cc
text_lt_trans s (d ∷ t) [] a b = cc
text_lt_trans [] (d ∷ t) (e ∷ u) a b = refl
text_lt_trans (c ∷ s) (d ∷ t) (e ∷ u) a b = ground (arith, text_lt_trans s t u)

text_lt_total : (s t : Text) → text_beq s t ≡ false → text_lt s t ≡ false → text_lt t s ≡ true
unfolding text_lt text_beq
text_lt_total [] [] a b = cc
text_lt_total [] (d ∷ t) a b = cc
text_lt_total (c ∷ s) [] a b = refl
text_lt_total (c ∷ s) (d ∷ t) a b = ground (arith, text_lt_total s t)

-- Texts in order, none twice.
abbrev IsAscending : List Text → Type 0
IsAscending [] = Unit
IsAscending (x ∷ xs) = All (λ y. text_lt x y ≡ true) xs × IsAscending xs

All-add : (P : Text → Type 0) (x : Text) (ys : List Text) → P x → All P ys → All P (add x ys)
unfolding add
All-add P x [] h k = (h, tt)
All-add P x (y ∷ ys) h k = elim (Bool-cases (text_beq x y)) [
  | inl e ↦ rw e k
  | inr e ↦ elim (Bool-cases (text_lt x y)) [
    | inl l ↦ rw (e, l) (h, k)
    | inr l ↦ rw (e, l) (k.0, All-add P x ys h k.1)
  ]
]

after :
    (x y : Text) (ys : List Text)
    → text_lt x y ≡ true
    → All (λ z. text_lt y z ≡ true) ys
    → All (λ z. text_lt x z ≡ true) ys
after x y [] h k = tt
after x y (z ∷ ys) h k = (text_lt_trans x y z h k.0, after x y ys h k.1)

add-IsAscending : (x : Text) (ys : List Text) → IsAscending ys → IsAscending (add x ys)
unfolding add
add-IsAscending x [] h = (tt, tt)
add-IsAscending x (y ∷ ys) (first, rest) = elim (Bool-cases (text_beq x y)) [
  | inl e ↦ rw e (first, rest)
  | inr e ↦ elim (Bool-cases (text_lt x y)) [
    | inl l ↦ rw (e, l) ((l, after x y ys l first), (first, rest))
    | inr l ↦
        rw (e, l)
          (
            All-add (λ z. text_lt y z ≡ true) x ys (text_lt_total x y e l) first,
            add-IsAscending x ys rest,
          )
  ]
]

set_of-IsAscending : (xs : List Text) → IsAscending (set_of xs)
unfolding set_of
set_of-IsAscending [] = tt
set_of-IsAscending (x ∷ xs) = add-IsAscending x (set_of xs) (set_of-IsAscending xs)

All-take : (P : Text → Type 0) (n : ℕ) (xs : List Text) → All P xs → All P (take n xs)
All-take P zero xs h = tt
All-take P (suc n) [] h = tt
All-take P (suc n) (x ∷ xs) h = (h.0, All-take P n xs h.1)

take-IsAscending : (n : ℕ) (xs : List Text) → IsAscending xs → IsAscending (take n xs)
take-IsAscending zero xs h = tt
take-IsAscending (suc n) [] h = tt
take-IsAscending (suc n) (x ∷ xs) h = (All-take _ n xs h.0, take-IsAscending n xs h.1)

capped-IsAscending : (hosts : List Text) → IsAscending hosts → IsAscending (capped hosts)
unfolding capped
capped-IsAscending hosts h = elim (Bool-cases (leb (length hosts) max_candidate_hosts)) [
  | inl e ↦ rw e h
  | inr e ↦ rw e (take-IsAscending max_candidate_hosts hosts h)
]

abbrev first : Text × List Text → Text
first r = r.0

-- What stands before all is none of them.
new_one : (x : Text) (ys : List Text) → All (λ y. text_lt x y ≡ true) ys → contains ys x ≡ false
unfolding contains
new_one x [] h = refl
new_one x (y ∷ ys) h = elim (Bool-cases (text_beq y x)) [
  | inr e ↦ rw e (new_one x ys h.1)
  | inl e ↦
      absurd
        (true≢false (sym h.0 ∙ ap (λ z. text_lt x z) ((text_beq_iff y x).0 e) ∙ text_lt_irrefl x))
]

IsAscending-Distinct : (xs : List Text) → IsAscending xs → Distinct xs
IsAscending-Distinct [] h = tt
IsAscending-Distinct (x ∷ xs) h = (new_one x xs h.0, IsAscending-Distinct xs h.1)

module _ (w : World) where
  All-resolved :
      (P : Text → Type 0) (hosts : List Text) → All P hosts → All P (map first (resolved w hosts))
  unfolding resolved
  All-resolved P [] h = tt
  All-resolved P (x ∷ hosts) h = elim (Bool-cases (leb 1 (length (w.resolve x)))) [
    | inl e ↦ rw e (h.0, All-resolved P hosts h.1)
    | inr e ↦ rw e (All-resolved P hosts h.1)
  ]

  resolved-IsAscending :
      (hosts : List Text) → IsAscending hosts → IsAscending (map first (resolved w hosts))
  unfolding resolved
  resolved-IsAscending [] h = tt
  resolved-IsAscending (x ∷ hosts) h = elim (Bool-cases (leb 1 (length (w.resolve x)))) [
    | inl e ↦ rw e (All-resolved _ hosts h.0, resolved-IsAscending hosts h.1)
    | inr e ↦ rw e (resolved-IsAscending hosts h.1)
  ]

  candidate_hosts-IsAscending :
      (root_domain : Text) (has_subfinder : Bool)
      → IsAscending (candidate_hosts w root_domain has_subfinder)
  unfolding candidate_hosts
  candidate_hosts-IsAscending root_domain true =
      add-IsAscending root_domain (set_of (enumerate_subdomains w root_domain))
        (set_of-IsAscending (enumerate_subdomains w root_domain))
  candidate_hosts-IsAscending root_domain false = (tt, tt)

  assets_of-hosts :
      (root_domain : Text) (probes : List HttpProbeResult) (rs : List (Text × List Text))
      → map (λ (a : DiscoveredAsset). a.host) (assets_of root_domain probes rs) ≡ map first rs
  unfolding assets_of
  assets_of-hosts root_domain probes [] = refl
  assets_of-hosts root_domain probes ((host, ips) ∷ rs) =
      ap (λ hs. host ∷ hs) (assets_of-hosts root_domain probes rs)

  -- No host has two assets in what reconnaissance reports.
  pub run_recon-Distinct :
      (root_domain : Text)
      → Distinct (map (λ (a : DiscoveredAsset). a.host) (run_recon w root_domain).assets)
  unfolding run_recon
  run_recon-Distinct root_domain = subst Distinct (sym (assets_of-hosts root_domain _ _)) (
      IsAscending-Distinct _ (
        resolved-IsAscending _ (
          capped-IsAscending (candidate_hosts w root_domain (tools w).subfinder)
            (candidate_hosts-IsAscending root_domain (tools w).subfinder))))
