-- ===== src/Runner/Surfaces.antt =====
-- apps/worker/sentinel_worker_app/scan_runner.py: the assets that reconnaissance adds to the
-- session, and the loop that merges the surfaces of the crawls. The addresses and the probes of an
-- asset are left out.
use security_tool.Prelude.{
  ℕ, ◌+◌, List, [], ◌∷◌, ◌++◌, Text, codes, length, all, if◌then◌else◌, Outcome, ok, raise, ◌>>=◌,
}
use security_tool.Url.{Library}
use security_tool.Crawler.{SurfaceMap}
use security_tool.Recon.{AssetSource, from_root_domain, from_subfinder, DiscoveredAsset}
use security_tool.SurfaceAdapter.{
  Asset, Rows, MergeStats, MergeFault, data_error, fits, merge_surface_map,
}

abbrev pub source_text : AssetSource → Text
source_text from_root_domain = codes "root_domain"
source_text from_subfinder = codes "subfinder"

abbrev pub asset_row : ℕ → ℕ → DiscoveredAsset → Asset
asset_row id scan_id a = record {
  id = id;
  scan_id = scan_id;
  host = a.host;
  discovery_source = source_text a.source;
}

-- `for asset in recon_result.assets: session.add(...)`
unfoldable pub add_assets : (ℕ → ℕ) → ℕ → List DiscoveredAsset → List Asset → List Asset
add_assets uuid scan_id [] assets = assets
add_assets uuid scan_id (a ∷ found) assets =
    add_assets uuid scan_id found (assets ++ asset_row (uuid (length assets)) scan_id a ∷ [])

abbrev pub add_stats : MergeStats → MergeStats → MergeStats
add_stats totals stats = record {
  assets_created = totals.assets_created + stats.assets_created;
  endpoints_created = totals.endpoints_created + stats.endpoints_created;
  endpoints_merged = totals.endpoints_merged + stats.endpoints_merged;
}

abbrev pub no_stats : MergeStats
no_stats = record { assets_created = 0; endpoints_created = 0; endpoints_merged = 0 }

module _ (lib : Library) (uuid : ℕ → ℕ) (scan_id : ℕ) where
  -- `for surface in surfaces`, with the totals.
  unfoldable pub merge_surfaces :
      List SurfaceMap → MergeStats → Rows → Outcome MergeFault (MergeStats × Rows)
  unfolding merge_surface_map
  merge_surfaces [] totals rows = ok (totals, rows)
  merge_surfaces (surface ∷ surfaces) totals rows =
      merge_surface_map lib uuid scan_id surface rows >>= λ (r : MergeStats × Rows).
      merge_surfaces surfaces (add_stats totals r.0) r.1

  -- What reconnaissance and the crawls of a run write; the commit after reconnaissance flushes the
  -- assets.
  unfoldable pub write_surfaces :
      List DiscoveredAsset → List SurfaceMap → Rows → Outcome MergeFault (MergeStats × Rows)
  unfolding add_assets merge_surfaces all fits
  write_surfaces found surfaces rows =
      if all (λ (a : DiscoveredAsset). fits 255 a.host) found
      then merge_surfaces surfaces no_stats
          (record rows { assets = add_assets uuid scan_id found rows.assets })
      else raise (data_error (codes "host"))
