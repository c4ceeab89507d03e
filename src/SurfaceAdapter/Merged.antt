-- ===== src/SurfaceAdapter/Merged.antt =====
-- What a merge leaves in the tables.
use security_tool.Prelude.{
  ℕ, suc, ◌+◌, ◌≤◌, Bool, true, false, ◌&&◌, List, [], ◌∷◌, map, Option, none, some, Text, text_eq,
  nat_eq, text_beq_iff, nat_beq_iff, filter, contains, length, length-append, if◌then◌else◌,
  Outcome, ok, raise, ◌>>=◌, ◌≡◌, refl, ap, subst, ◌∙◌, Bool-cases, inl, inr, ◌⊎◌, arith,
}
use security_tool.Url.{Library, urlsplit, hostname}
use security_tool.Crawler.{DiscoveredEndpoint, SurfaceMap}
use security_tool.SurfaceAdapter.{
  Asset, Endpoint, Rows, MergeStats, MergeFault, url_fault, multiple_results, data_error, fits,
  one_or_none, is_asset_of, new_asset, get_or_create_asset, is_endpoint_of, new_endpoint,
  add_persona, add_at, merge_endpoint, Merging, cached, or_database, asset_of, host_of, merge_into,
  merge_one, merge_loop, first_merging, merge_surface_map,
}
use security_tool.SurfaceAdapter.Keyed.{IsKeyed, IsKeyed-snoc, IsKeyed-map}

and_true : {a b : Bool} → (a && b) ≡ true → (a ≡ true) × (b ≡ true)
and_true {a = true} {b = true} h = (refl, refl)
and_true {a = true} {b = false} h = cc
and_true {a = false} h = cc

length-map : {A B : Type 0} (f : A → B) (xs : List A) → length (map f xs) ≡ length xs
length-map f [] = refl
length-map f (x ∷ xs) = ap suc (length-map f xs)

-- A query of a table in which no key has two rows.
one_or_none-cases :
    {A : Type 0} (xs : List A)
    → length xs ≤ 1
    → ((one_or_none xs ≡ ok none) × (xs ≡ [])) ⊎ ((x : A) × (one_or_none xs ≡ ok (some x)))
one_or_none-cases [] h = inl (refl, refl)
one_or_none-cases (x ∷ []) h = inr (x, refl)
one_or_none-cases (x ∷ y ∷ xs) h = absurd (omega arith)

pub new_asset-only :
    (id scan_id : ℕ) (host : Text) (k : ℕ × Text)
    → is_asset_of k (new_asset id scan_id host) ≡ true
    → k ≡ (scan_id, host)
new_asset-only id scan_id host (s, h) e =
    let (a, b) = and_true e in
    let p = (nat_beq_iff scan_id s).0 a in let q = (text_beq_iff host h).0 b in cc

new_endpoint-only :
    (asset_id : ℕ) (d : DiscoveredEndpoint) (k : ℕ × Text × Text)
    → is_endpoint_of k (new_endpoint asset_id d) ≡ true
    → k ≡ (asset_id, d.method, d.path_template)
new_endpoint-only asset_id d (a, m, t) e =
    let (x, y) = and_true e in
    let (z, w) = and_true y in
    let p = (nat_beq_iff asset_id a).0 x in
    let q = (text_beq_iff d.method m).0 z in let r = (text_beq_iff d.path_template t).0 w in cc

add_persona-same :
    (k : ℕ × Text × Text) (p : Text) (e : Endpoint)
    → is_endpoint_of k (add_persona p e) ≡ is_endpoint_of k e
unfolding add_persona
add_persona-same k p e = elim (Bool-cases (contains e.discovered_by_persona_ids p)) [
  | inl h ↦ rw h refl
  | inr h ↦ rw h refl
]

add_at-same :
    (key : ℕ × Text × Text) (p : Text) (k : ℕ × Text × Text) (e : Endpoint)
    → is_endpoint_of k (add_at key p e) ≡ is_endpoint_of k e
add_at-same key p k e = by_test (is_endpoint_of key e)
  where
    by_test : (b : Bool) → is_endpoint_of k (if b then add_persona p e else e) ≡ is_endpoint_of k e
    by_test true = add_persona-same k p e
    by_test false = refl

-- No host of a scan has two assets, and no asset two rows for a method and a template.
abbrev pub HasKeys : Rows → Type 0
HasKeys rows = IsKeyed is_asset_of rows.assets × IsKeyed is_endpoint_of rows.endpoints

abbrev IsCounted : ℕ → ℕ → Merging → Type 0
IsCounted base n s =
    (s.stats.endpoints_created + s.stats.endpoints_merged ≡ n)
    × (length s.rows.endpoints ≡ base + s.stats.endpoints_created)

abbrev IsSound : ℕ → ℕ → Merging → Type 0
IsSound base n s = HasKeys s.rows × IsCounted base n s

-- Only a URL that cannot be split and a text that its column does not take make a block fail.
abbrev pub Holds : {A : Type 0} → (A → Type 0) → Outcome MergeFault A → Type 0
Holds P (ok x) = P x
Holds P (raise (url_fault f)) = Unit
Holds P (raise multiple_results) = ⊥
Holds P (raise (data_error t)) = Unit

pub Holds-bind :
    {A B : Type 0} (P : A → Type 0) (Q : B → Type 0) (o : Outcome MergeFault A)
    (next : A → Outcome MergeFault B)
    → Holds P o
    → ((x : A) → P x → Holds Q (next x))
    → Holds Q (o >>= next)
Holds-bind P Q (ok x) next h k = k x h
Holds-bind P Q (raise (url_fault f)) next h k = tt
Holds-bind P Q (raise multiple_results) next h k = h
Holds-bind P Q (raise (data_error t)) next h k = tt

pub Holds-imp :
    {A : Type 0} (P Q : A → Type 0) (o : Outcome MergeFault A)
    → Holds P o
    → ((x : A) → P x → Q x)
    → Holds Q o
Holds-imp P Q (ok x) h k = k x h
Holds-imp P Q (raise (url_fault f)) h k = tt
Holds-imp P Q (raise multiple_results) h k = h
Holds-imp P Q (raise (data_error t)) h k = tt

asset_of-IsSound :
    (uuid : ℕ → ℕ) (scan_id : ℕ) (host : Text) (base n : ℕ) (s : Merging)
    → IsSound base n s
    → Holds (λ (r : Asset × Merging). IsSound base n r.1) (asset_of uuid scan_id host s)
unfolding asset_of get_or_create_asset
asset_of-IsSound uuid scan_id host base n s ((assets, endpoints), counts) =
    by_cache (cached host s.asset_cache)
  where
    fresh : Asset
    fresh = new_asset (uuid (length s.rows.assets)) scan_id host

    by_cache :
        (o : Option Asset)
        → Holds (λ (r : Asset × Merging). IsSound base n r.1) (or_database uuid scan_id host s o)
    by_cache (some a) = ((assets, endpoints), counts)
    by_cache none =
        elim (one_or_none-cases (filter (is_asset_of (scan_id, host)) s.rows.assets)
          (assets (scan_id, host))) [
            | inl (e, empty) ↦ elim (Bool-cases (fits 255 host)) [
              | inl f ↦
                  rw (e, f)
                    (
                      (
                        IsKeyed-snoc is_asset_of s.rows.assets fresh (scan_id, host) assets empty
                            (new_asset-only (uuid (length s.rows.assets)) scan_id host),
                        endpoints,
                      ),
                      counts,
                    )
              | inr f ↦ rw (e, f) tt
            ]
            | inr (a, e) ↦ rw e ((assets, endpoints), counts)
          ]

merge_into-IsSound :
    (d : DiscoveredEndpoint) (a : Asset) (base n : ℕ) (s : Merging)
    → IsSound base n s
    → Holds (IsSound base (suc n)) (merge_into d (a, s))
unfolding merge_endpoint
merge_into-IsSound d a base n s ((assets, endpoints), (total, rows)) =
    elim (one_or_none-cases
      (filter (is_endpoint_of (a.id, d.method, d.path_template)) s.rows.endpoints)
      (endpoints (a.id, d.method, d.path_template))) [
        | inl (e, empty) ↦ elim (Bool-cases (fits 10 d.method && fits 1000 d.path_template)) [
          | inl f ↦
              rw (e, f)
                (
                  (
                    assets,
                    IsKeyed-snoc is_endpoint_of s.rows.endpoints (new_endpoint a.id d)
                        (a.id, d.method, d.path_template) endpoints empty
                        (new_endpoint-only a.id d),
                  ),
                  (
                    omega (arith, total),
                    omega (arith, rows, length-append s.rows.endpoints (new_endpoint a.id d ∷ [])),
                  ),
                )
          | inr f ↦ rw (e, f) tt
        ]
        | inr (x, e) ↦ rw e (
          (
            assets,
            IsKeyed-map is_endpoint_of (add_at (a.id, d.method, d.path_template) d.persona_id)
                s.rows.endpoints (add_at-same (a.id, d.method, d.path_template) d.persona_id)
                endpoints,
          ),
          (
            omega (arith, total),
            length-map (add_at (a.id, d.method, d.path_template) d.persona_id) s.rows.endpoints
                ∙ rows,
          ),
        )
      ]

host_of-Holds : (lib : Library) (url : Text) → Holds (λ (t : Text). Unit) (host_of lib url)
host_of-Holds lib url =
    elim (urlsplit lib url)
      as (λ o.
        Holds (λ (t : Text). Unit)
          (elim o as (λ _. Outcome MergeFault Text) [
            | ok parts ↦ ok (hostname parts)
            | raise e ↦ raise (url_fault e)
          ])) [ ok parts ↦ tt | raise e ↦ tt ]

module _ (lib : Library) (uuid : ℕ → ℕ) (scan_id : ℕ) where
  merge_one-IsSound :
      (d : DiscoveredEndpoint) (base n : ℕ) (s : Merging)
      → IsSound base n s
      → Holds (IsSound base (suc n)) (merge_one lib uuid scan_id d s)
  unfolding merge_one
  merge_one-IsSound d base n s h =
      Holds-bind (λ (t : Text). Unit) (IsSound base (suc n)) (host_of lib d.url)
        (λ host. asset_of uuid scan_id host s >>= merge_into d) (host_of-Holds lib d.url)
        λ host u.
          Holds-bind (λ (r : Asset × Merging). IsSound base n r.1) (IsSound base (suc n))
            (asset_of uuid scan_id host s) (merge_into d)
            (asset_of-IsSound uuid scan_id host base n s h)
            (λ (a, t) k. merge_into-IsSound d a base n t k)

  merge_loop-IsSound :
      (ds : List DiscoveredEndpoint) (base n : ℕ) (s : Merging)
      → IsSound base n s
      → Holds (IsSound base (length ds + n)) (merge_loop lib uuid scan_id ds s)
  unfolding merge_loop
  merge_loop-IsSound [] base n s h = subst (λ m. IsSound base m s) (none_left n) h
    where
      none_left : (m : ℕ) → m ≡ 0 + m
      none_left m = omega arith
  merge_loop-IsSound (d ∷ ds) base n s h =
      Holds-bind (IsSound base (suc n)) (IsSound base (suc (length ds) + n))
        (merge_one lib uuid scan_id d s) (merge_loop lib uuid scan_id ds)
        (merge_one-IsSound d base n s h)
        λ t k.
          subst (λ m. Holds (IsSound base m) (merge_loop lib uuid scan_id ds t))
            (shifted (length ds)) (merge_loop-IsSound ds base (suc n) t k)
    where
      shifted : (m : ℕ) → m + suc n ≡ suc m + n
      shifted m = omega arith

  abbrev pub IsMerged : SurfaceMap → Rows → MergeStats × Rows → Type 0
  IsMerged surface rows (stats, after) =
      HasKeys after
      × (stats.endpoints_created + stats.endpoints_merged ≡ length surface.endpoints)
      × (length after.endpoints ≡ length rows.endpoints + stats.endpoints_created)

  -- A merge fails only for a URL that cannot be split or a host, method or template that is too long
  -- for its column or has a zero character: no query meets two rows. Otherwise no host
  -- of a scan has two assets and no asset two rows for a method and a template, every endpoint of
  -- the surface is counted once, and as many rows are new as the statistics say. No key has two
  -- rows to begin with.
  pub merge_surface_map-IsMerged :
      (surface : SurfaceMap) (rows : Rows)
      → HasKeys rows
      → Holds (IsMerged surface rows) (merge_surface_map lib uuid scan_id surface rows)
  unfolding merge_surface_map
  merge_surface_map-IsMerged surface rows keys =
      Holds-bind (IsSound (length rows.endpoints) (length surface.endpoints + 0))
        (IsMerged surface rows) (merge_loop lib uuid scan_id surface.endpoints (first_merging rows))
        (λ s. ok (s.stats, s.rows))
        (merge_loop-IsSound surface.endpoints (length rows.endpoints) 0 (first_merging rows)
          (keys, (refl, omega arith)))
        λ t (k, (total, count)). (k, omega (arith, total), count)
