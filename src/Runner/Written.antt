-- ===== src/Runner/Written.antt =====
-- The rows that a run writes, from reconnaissance to the last surface.
use security_tool.Prelude.{
  ℕ, ◌+◌, false, List, [], ◌∷◌, Text, ◌==◌, text_eq, nat_eq, filter, length, ◌≡◌, All,
}
use security_tool.Url.{Library}
use security_tool.Crawler.{SurfaceMap}
use security_tool.Recon.{DiscoveredAsset}
use security_tool.SurfaceAdapter.{Asset, Rows, MergeStats, is_asset_of}
use security_tool.SurfaceAdapter.Merged.{HasKeys}

-- The scan has no asset of the host.
abbrev IsNew : ℕ → List Asset → Text → Type 0
IsNew scan_id assets host = filter (is_asset_of (scan_id, host)) assets ≡ []

abbrev host : DiscoveredAsset → Text
host a = a.host

-- The scan has no asset.
abbrev pub IsFresh : ℕ → Rows → Type 0
IsFresh scan_id rows = All (λ (a : Asset). (a.scan_id == scan_id) ≡ false) rows.assets

abbrev pub count_endpoints : List SurfaceMap → ℕ
count_endpoints [] = 0
count_endpoints (s ∷ surfaces) = length s.endpoints + count_endpoints surfaces

module _ (lib : Library) (uuid : ℕ → ℕ) (scan_id : ℕ) where
  abbrev IsTotal : List SurfaceMap → MergeStats → Rows → MergeStats × Rows → Type 0
  IsTotal surfaces totals rows (stats, after) =
      HasKeys after
      × (stats.endpoints_created + stats.endpoints_merged
          ≡ totals.endpoints_created + totals.endpoints_merged + count_endpoints surfaces)
      × (length after.endpoints + totals.endpoints_created
          ≡ length rows.endpoints + stats.endpoints_created)

  -- What is written of the endpoints: every key once, and each endpoint of a surface counted.
  abbrev pub IsWritten : List SurfaceMap → Rows → MergeStats × Rows → Type 0
  IsWritten surfaces rows (stats, after) =
      HasKeys after
      × (stats.endpoints_created + stats.endpoints_merged ≡ count_endpoints surfaces)
      × (length after.endpoints ≡ length rows.endpoints + stats.endpoints_created)
