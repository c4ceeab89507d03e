-- ===== src/Recon/Assets.antt =====
-- The assets that reconnaissance reports.
use mathlib.Core.Bool.{true≢false}
use security_tool.Prelude.{
  ℕ, zero, suc, ◌≤◌, Bool, true, false, List, [], ◌∷◌, map, Text, ◌==◌, text_eq, text_beq,
  text_beq_iff, leb, leb_iff, length, take, length-take_le, if◌then◌else◌, ◌≡◌, ◌≢◌, refl, ap, sym,
  ◌∙◌, Bool-cases, inl, inr, ◌⊎◌, Memᴰ, All, arith,
}
use security_tool.Recon.Tools.{World, text_lt, add, set_of, enumerate_subdomains}
use security_tool.Recon.Probes.{HttpProbeResult, probe_hosts}
use security_tool.Recon.{
  AssetSource, from_root_domain, from_subfinder, DiscoveredAsset, max_candidate_hosts, resolved,
  assets_of, candidate_hosts, capped, tools, run_recon,
}

mem_add : (x y : Text) (ys : List Text) → Memᴰ x (add y ys) → (x ≡ y) ⊎ Memᴰ x ys
unfolding add
mem_add x y [] (Memᴰ.head e) = inl e
mem_add x y [] (Memᴰ.tail m) = elim m [ ]
mem_add x y (z ∷ ys) m = elim (Bool-cases (y == z)) [
  | inl e ↦ inr (rw e at m)
  | inr e ↦ elim (Bool-cases (text_lt y z)) [
    | inl f ↦ front (rw (e, f) at m)
    | inr f ↦ later (mem_add x y ys) (rw (e, f) at m)
  ]
]
  where
    front : Memᴰ x (y ∷ z ∷ ys) → (x ≡ y) ⊎ Memᴰ x (z ∷ ys)
    front (Memᴰ.head e) = inl e
    front (Memᴰ.tail n) = inr n

    later :
        (Memᴰ x (add y ys) → (x ≡ y) ⊎ Memᴰ x ys)
        → Memᴰ x (z ∷ add y ys)
        → (x ≡ y) ⊎ Memᴰ x (z ∷ ys)
    later ih (Memᴰ.head e) = inr (Memᴰ.head e)
    later ih (Memᴰ.tail n) = elim (ih n) [ inl e ↦ inl e | inr o ↦ inr (Memᴰ.tail o) ]

mem-set_of : (x : Text) (xs : List Text) → Memᴰ x (set_of xs) → Memᴰ x xs
unfolding set_of
mem-set_of x [] m = elim m [ ]
mem-set_of x (y ∷ xs) m = elim (mem_add x y (set_of xs) m) [
  | inl e ↦ Memᴰ.head e
  | inr n ↦ Memᴰ.tail (mem-set_of x xs n)
]

mem-take : {x : Text} (n : ℕ) (xs : List Text) → Memᴰ x (take n xs) → Memᴰ x xs
mem-take zero xs m = elim m [ ]
mem-take (suc n) [] m = elim m [ ]
mem-take (suc n) (y ∷ xs) (Memᴰ.head e) = Memᴰ.head e
mem-take (suc n) (y ∷ xs) (Memᴰ.tail m) = Memᴰ.tail (mem-take n xs m)

mem-capped : {x : Text} (hosts : List Text) → Memᴰ x (capped hosts) → Memᴰ x hosts
unfolding capped
mem-capped hosts m = elim (Bool-cases (leb (length hosts) max_candidate_hosts)) [
  | inl e ↦ rw e at m
  | inr e ↦ mem-take max_candidate_hosts hosts (rw e at m)
]

length-capped : (hosts : List Text) → length (capped hosts) ≤ 50
unfolding capped
length-capped hosts = elim (Bool-cases (leb (length hosts) max_candidate_hosts)) [
  | inl e ↦ rw e ((leb_iff (length hosts) max_candidate_hosts).0 e)
  | inr e ↦ rw e (length-take_le max_candidate_hosts hosts)
]

module _ (w : World) (root_domain : Text) where
  -- Where a host comes from.
  abbrev pub IsFound : Text → Type 0
  IsFound host = (host ≡ root_domain) ⊎ Memᴰ host (enumerate_subdomains w root_domain)

  mem-candidate_hosts :
      (has_subfinder : Bool) {x : Text}
      → Memᴰ x (candidate_hosts w root_domain has_subfinder)
      → IsFound x
  unfolding candidate_hosts
  mem-candidate_hosts true {x} m =
      elim (mem_add x root_domain (set_of (enumerate_subdomains w root_domain)) m) [
        | inl e ↦ inl e
        | inr n ↦ inr (mem-set_of x (enumerate_subdomains w root_domain) n)
      ]
  mem-candidate_hosts false (Memᴰ.head e) = inl e
  mem-candidate_hosts false (Memᴰ.tail m) = elim m [ ]

  abbrev IsResolved : Text × List Text → Type 0
  IsResolved (host, ips) = IsFound host × (ips ≡ w.resolve host) × (1 ≤ length ips)

  resolved-All :
      (hosts : List Text)
      → ((x : Text) → Memᴰ x hosts → IsFound x)
      → All IsResolved (resolved w hosts) × (length (resolved w hosts) ≤ length hosts)
  unfolding resolved
  resolved-All [] h = (tt, omega arith)
  resolved-All (x ∷ hosts) h =
      let (all, short) = resolved-All hosts (λ y m. h y (Memᴰ.tail m)) in
      elim (Bool-cases (leb 1 (length (w.resolve x)))) [
        | inl e ↦ rw e (
          ((h x (Memᴰ.head refl), refl, (leb_iff 1 (length (w.resolve x))).0 e), all),
          omega (arith, short),
        )
        | inr e ↦ rw e (all, omega (arith, short))
      ]

  abbrev pub HasSource : Text → AssetSource → Type 0
  HasSource host from_root_domain = host ≡ root_domain
  HasSource host from_subfinder =
      (host ≢ root_domain) × Memᴰ host (enumerate_subdomains w root_domain)

  abbrev pub IsReported : DiscoveredAsset → Type 0
  IsReported a = HasSource a.host a.source × (a.ips ≡ w.resolve a.host) × (1 ≤ length a.ips)

  HasSource-of :
      (host : Text)
      → IsFound host
      → HasSource host (if host == root_domain then from_root_domain else from_subfinder)
  HasSource-of host h = elim (Bool-cases (text_beq host root_domain)) [
    | inl e ↦ rw e ((text_beq_iff host root_domain).0 e)
    | inr e ↦ rw e (other e h)
  ]
    where
      other :
          text_beq host root_domain ≡ false
          → IsFound host
          → (host ≢ root_domain) × Memᴰ host (enumerate_subdomains w root_domain)
      other e (inl same) = absurd (true≢false (sym ((text_beq_iff host root_domain).1 same) ∙ e))
      other e (inr m) = (λ same. true≢false (sym ((text_beq_iff host root_domain).1 same) ∙ e), m)

  assets_of-All :
      (probes : List HttpProbeResult) (rs : List (Text × List Text))
      → All IsResolved rs
      → All IsReported (assets_of root_domain probes rs)
        × (length (assets_of root_domain probes rs) ≡ length rs)
  unfolding assets_of
  assets_of-All probes [] h = (tt, refl)
  assets_of-All probes ((host, ips) ∷ rs) ((found, same, some_ip), h) =
      let (all, count) = assets_of-All probes rs h in
      (((HasSource-of host found, same, some_ip), all), ap suc count)

  -- Reconnaissance reports at most 50 assets. Each is the root domain, or another host that
  -- subfinder listed, and its source says which; its addresses are those that the host resolves
  -- to, at least one.
  pub run_recon-IsReported :
      All IsReported (run_recon w root_domain).assets
      × (length (run_recon w root_domain).assets ≤ 50)
  unfolding run_recon
  run_recon-IsReported =
      let hosts = capped (candidate_hosts w root_domain (tools w).subfinder) in
      let (all, short) = resolved-All hosts λ x m.
        mem-candidate_hosts (tools w).subfinder
          (mem-capped (candidate_hosts w root_domain (tools w).subfinder) m) in
      let (reported, count) =
        assets_of-All (probe_hosts w (map (λ r. r.0) (resolved w hosts)) (tools w).httpx)
          (resolved w hosts) all in
      let few = length-capped (candidate_hosts w root_domain (tools w).subfinder) in
      (reported, omega (arith, count, short, few))
