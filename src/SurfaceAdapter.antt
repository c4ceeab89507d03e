-- ===== src/SurfaceAdapter.antt =====
-- apps/worker/sentinel_worker_app/surface_adapter.py: a crawl's endpoints become rows. The rows are
-- those of the session, the unflushed ones included; one that the database refuses raises where it
-- is added, though an endpoint is flushed only by the next query or the commit; the key of a new
-- asset is a parameter, by the number of the assets there are.
pub mod Keyed
pub mod Merged
mod Tests
use security_tool.Prelude.{
  ℕ, zero, suc, ◌+◌, Bool, true, false, ◌&&◌, List, [], ◌∷◌, ◌++◌, map, Option, none, some, Text,
  codes, leb, not, ◌==◌, text_eq, nat_eq, filter, contains, length, if◌then◌else◌, Outcome, ok,
  raise, ◌>>=◌,
}
use security_tool.Url.{Library, Fault, urlsplit, hostname}
use security_tool.Crawler.{DiscoverySource, network, DiscoveredEndpoint, SurfaceMap}

pub record Asset : Type 0 where
  pub id : ℕ
  pub scan_id : ℕ
  pub host : Text
  pub discovery_source : Text

pub record Endpoint : Type 0 where
  pub asset_id : ℕ
  pub method : Text
  pub path_template : Text
  pub discovered_by_persona_ids : List Text
  pub discovery_source : Text

pub record Rows : Type 0 where
  pub assets : List Asset
  pub endpoints : List Endpoint

pub record MergeStats : Type 0 where
  pub assets_created : ℕ
  pub endpoints_created : ℕ
  pub endpoints_merged : ℕ

pub data MergeFault : Type 0 where
  url_fault : Fault → MergeFault
  multiple_results : MergeFault
  data_error : Text → MergeFault

-- result.scalar_one_or_none()
abbrev pub one_or_none {ℓ} : {A : Type ℓ} → List A → Outcome MergeFault (Option A)
one_or_none [] = ok none
one_or_none (x ∷ []) = ok (some x)
one_or_none (x ∷ y ∷ xs) = raise multiple_results

abbrev pub is_asset_of : ℕ × Text → Asset → Bool
is_asset_of (scan_id, host) a = a.scan_id == scan_id && (a.host == host)

abbrev pub new_asset : ℕ → ℕ → Text → Asset
new_asset id scan_id host = record {
  id = id;
  scan_id = scan_id;
  host = host;
  discovery_source = codes "crawl";
}

-- What a column `String(n)` takes: no more characters, and none of them is zero.
unfoldable pub fits : ℕ → Text → Bool
unfolding contains
fits n t = leb (length t) n && not (contains t 0)

abbrev pub or_new_asset :
    Asset → List Asset → Option Asset → Outcome MergeFault (Asset × Bool × List Asset)
or_new_asset fresh assets (some a) = ok (a, false, assets)
or_new_asset fresh assets none =
    if fits 255 fresh.host
    then ok (fresh, true, assets ++ fresh ∷ [])
    else raise (data_error fresh.host)

-- `_get_or_create_asset`: the asset, whether it is new, and the assets.
unfoldable pub get_or_create_asset :
    (ℕ → ℕ) → ℕ → Text → List Asset → Outcome MergeFault (Asset × Bool × List Asset)
unfolding filter
get_or_create_asset uuid scan_id host assets =
    one_or_none (filter (is_asset_of (scan_id, host)) assets) >>= λ found.
    or_new_asset (new_asset (uuid (length assets)) scan_id host) assets found

abbrev pub is_endpoint_of : ℕ × Text × Text → Endpoint → Bool
is_endpoint_of (asset_id, method, path_template) e =
    e.asset_id == asset_id && (e.method == method && (e.path_template == path_template))

abbrev source_of : DiscoverySource → Text
source_of network = codes "js_extraction"
source_of _ = codes "rendered_crawl"

abbrev pub new_endpoint : ℕ → DiscoveredEndpoint → Endpoint
new_endpoint asset_id d = record {
  asset_id = asset_id;
  method = d.method;
  path_template = d.path_template;
  discovered_by_persona_ids = d.persona_id ∷ [];
  discovery_source = source_of d.source;
}

unfoldable pub add_persona : Text → Endpoint → Endpoint
unfolding contains
add_persona persona_id e =
    if contains e.discovered_by_persona_ids persona_id
    then e
    else record e { discovered_by_persona_ids = e.discovered_by_persona_ids ++ persona_id ∷ [] }

-- The row of the key is changed where it stands.
abbrev pub add_at : ℕ × Text × Text → Text → Endpoint → Endpoint
add_at key persona_id e = if is_endpoint_of key e then add_persona persona_id e else e

abbrev pub or_new_endpoint :
    ℕ
    → DiscoveredEndpoint
    → List Endpoint
    → Option Endpoint
    → Outcome MergeFault (Bool × List Endpoint)
or_new_endpoint asset_id d endpoints none =
    if fits 10 d.method && fits 1000 d.path_template
    then ok (false, endpoints ++ new_endpoint asset_id d ∷ [])
    else raise (data_error d.path_template)
or_new_endpoint asset_id d endpoints (some e) =
    ok (true, map (add_at (asset_id, d.method, d.path_template) d.persona_id) endpoints)

-- `_merge_endpoint`: whether there was a row, and the endpoints.
unfoldable pub merge_endpoint :
    ℕ → DiscoveredEndpoint → List Endpoint → Outcome MergeFault (Bool × List Endpoint)
unfolding filter add_persona
merge_endpoint asset_id d endpoints =
    one_or_none (filter (is_endpoint_of (asset_id, d.method, d.path_template)) endpoints)
    >>= λ found. or_new_endpoint asset_id d endpoints found

-- The variables of the loop.
pub record Merging : Type 0 where
  pub rows : Rows
  pub asset_cache : List (Text × Asset)
  pub stats : MergeStats

unfoldable pub cached : Text → List (Text × Asset) → Option Asset
cached host [] = none
cached host ((h, a) ∷ cache) = if h == host then some a else cached host cache

abbrev pub cache_new : Text → Merging → Asset × Bool × List Asset → Asset × Merging
cache_new host s (a, created, assets) = (
  a,
  record {
    rows = record s.rows { assets = assets };
    asset_cache = (host, a) ∷ s.asset_cache;
    stats = record s.stats { assets_created = s.stats.assets_created + (if created then 1 else 0) };
  },
)

abbrev pub or_database :
    (ℕ → ℕ) → ℕ → Text → Merging → Option Asset → Outcome MergeFault (Asset × Merging)
or_database uuid scan_id host s (some a) = ok (a, s)
or_database uuid scan_id host s none =
    get_or_create_asset uuid scan_id host s.rows.assets >>= λ r. ok (cache_new host s r)

-- The asset of a host: from the cache, or from the database.
unfoldable pub asset_of : (ℕ → ℕ) → ℕ → Text → Merging → Outcome MergeFault (Asset × Merging)
unfolding get_or_create_asset cached
asset_of uuid scan_id host s = or_database uuid scan_id host s (cached host s.asset_cache)

abbrev pub counted : Merging → Bool × List Endpoint → Merging
counted s (merged, endpoints) = record s {
  rows = record s.rows { endpoints = endpoints };
  stats =
      if merged
      then record s.stats { endpoints_merged = s.stats.endpoints_merged + 1 }
      else record s.stats { endpoints_created = s.stats.endpoints_created + 1 };
}

abbrev pub host_of : Library → Text → Outcome MergeFault Text
host_of lib url = elim (urlsplit lib url) [
  | ok parts ↦ ok (hostname parts)
  | raise e ↦ raise (url_fault e)
]

abbrev pub merge_into : DiscoveredEndpoint → Asset × Merging → Outcome MergeFault Merging
merge_into d (a, s) = merge_endpoint a.id d s.rows.endpoints >>= λ r. ok (counted s r)

-- One round of the loop.
unfoldable pub merge_one :
    Library → (ℕ → ℕ) → ℕ → DiscoveredEndpoint → Merging → Outcome MergeFault Merging
unfolding asset_of merge_endpoint urlsplit hostname
merge_one lib uuid scan_id d s =
    host_of lib d.url >>= λ host. asset_of uuid scan_id host s >>= merge_into d

unfoldable pub merge_loop :
    Library → (ℕ → ℕ) → ℕ → List DiscoveredEndpoint → Merging → Outcome MergeFault Merging
unfolding merge_one
merge_loop lib uuid scan_id [] s = ok s
merge_loop lib uuid scan_id (d ∷ ds) s =
    merge_one lib uuid scan_id d s >>= merge_loop lib uuid scan_id ds

abbrev pub first_merging : Rows → Merging
first_merging rows = record {
  rows = rows;
  asset_cache = [];
  stats = record { assets_created = 0; endpoints_created = 0; endpoints_merged = 0 };
}

unfoldable pub merge_surface_map :
    Library → (ℕ → ℕ) → ℕ → SurfaceMap → Rows → Outcome MergeFault (MergeStats × Rows)
unfolding merge_loop
merge_surface_map lib uuid scan_id surface rows =
    merge_loop lib uuid scan_id surface.endpoints (first_merging rows) >>= λ s. ok (s.stats, s.rows)
