-- ===== src/SurfaceAdapter/Tests.antt =====
-- Two personas' crawls of one page, merged into empty tables.
use security_tool.Prelude.{
  false, true, ◌≡◌, refl, List, [], ◌∷◌, Text, codes, map, filter, contains, text_beq, starts_with,
  some, ok, raise, Outcome, Option, none, ◌++◌, lower, split_once, strip_left, all, any, arith,
}
use security_tool.Url.{Library, urlsplit, hostname}
use security_tool.Crawler.{DiscoveredEndpoint, SurfaceMap, link, network, DiscoverySource}
use security_tool.SurfaceAdapter.{
  fits, Rows, Endpoint, merge_surface_map, merge_loop, merge_one, asset_of, cached,
  get_or_create_asset, merge_endpoint, add_persona, MergeStats, MergeFault,
}
use security_tool.SurfaceAdapter.Merged.{HasKeys}

abbrev simple_library : Library
simple_library = record {
  search = λ p s. some (starts_with s p);
  netloc_valid = λ s. true;
  alnum = λ c. false;
}

abbrev seen : Text → DiscoverySource → Text → DiscoveredEndpoint
seen path source persona = record {
  method = codes "GET";
  url = codes "https://a.test" ++ path;
  path_template = path;
  source = source;
  persona_id = persona;
}

abbrev surface : SurfaceMap
surface = record {
  root_url = codes "https://a.test/";
  persona_id = codes "ann";
  endpoints =
      seen (codes "/x") link (codes "ann")
      ∷ seen (codes "/y") network (codes "ann")
      ∷ seen (codes "/x") link (codes "bob")
      ∷ [];
  pages_visited = 1;
  notes = [];
}

abbrev no_rows : Rows
no_rows = record { assets = []; endpoints = [] }

no_rows-HasKeys : HasKeys no_rows
unfolding filter
no_rows-HasKeys = (λ k. omega arith, λ k. omega arith)

abbrev personas : Rows → List (List Text)
personas rows = map (λ (e : Endpoint). e.discovered_by_persona_ids) rows.endpoints

abbrev summary : Outcome MergeFault (MergeStats × Rows) → Option (MergeStats × List (List Text))
summary (ok (stats, rows)) = some (stats, personas rows)
summary (raise e) = none

merges :
    summary (merge_surface_map simple_library (λ n. n) 1 surface no_rows)
    ≡ some (
      record { assets_created = 1; endpoints_created = 2; endpoints_merged = 1 },
      (codes "ann" ∷ codes "bob" ∷ []) ∷ (codes "ann" ∷ []) ∷ [],
    )
unfolding fits merge_surface_map merge_loop merge_one asset_of cached get_or_create_asset
    merge_endpoint add_persona filter contains urlsplit hostname text_beq lower split_once
    strip_left all any
merges = refl
