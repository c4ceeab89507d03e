-- ===== src/Recon.antt =====
-- packages/recon/src/sentinel_recon. The processes of the tools, DNS, the web, the JSON parser and
-- the pattern of a title are parameters. A set of hosts is the sorted list of its members, since
-- the code sorts the hosts before it returns them.
pub mod Tools
pub mod Probes
pub mod Assets
pub mod Hosts
mod Tests
use security_tool.Prelude.{
  ℕ, zero, suc, ◌+◌, Bool, true, false, not, ◌&&◌, ◌||◌, List, [], ◌∷◌, ◌++◌, map, Option, none,
  some, Text, codes, ◌==◌, text_eq, nat_eq, nat_beq, ltb, leb, filter, length, take, contains,
  lower, strip, split_once, join, starts_with, if◌then◌else◌,
}
use security_tool.Recon.Tools.{
  World, add, set_of, looks_like_projectdiscovery_tool, enumerate_subdomains,
}
use security_tool.Recon.Probes.{HttpProbeResult, probes_of, probe_hosts}

pub data Note : Type 0 where
  wildcard_dns no_subfinder no_tlsx : Note
  subfinder_found capped_from : ℕ → Note

pub record ToolAvailability : Type 0 where
  pub subfinder : Bool
  pub httpx : Bool
  pub tlsx : Bool

pub data AssetSource : Type 0 where
  from_root_domain from_subfinder : AssetSource

pub record DiscoveredAsset : Type 0 where
  pub host : Text
  pub source : AssetSource
  pub ips : List Text
  pub http_probes : List HttpProbeResult

pub record ReconResult : Type 0 where
  pub root_domain : Text
  pub assets : List DiscoveredAsset
  pub tool_availability : ToolAvailability
  pub wildcard_dns_suspected : Bool
  pub notes : List Note

unfoldable pub degraded : ReconResult → Bool
degraded r = let t = r.tool_availability in not (t.subfinder && (t.httpx && t.tlsx))

abbrev pub max_candidate_hosts : ℕ
max_candidate_hosts = 50

unfoldable pub assets_of :
    Text → List HttpProbeResult → List (Text × List Text) → List DiscoveredAsset
unfolding probes_of
assets_of root_domain probes [] = []
assets_of root_domain probes ((host, ips) ∷ rs) =
    record {
      host = host;
      source = if host == root_domain then from_root_domain else from_subfinder;
      ips = ips;
      http_probes = probes_of host probes;
    }
    ∷ assets_of root_domain probes rs

-- The cap.
unfoldable pub capped : List Text → List Text
capped hosts =
    if leb (length hosts) max_candidate_hosts then hosts else take max_candidate_hosts hosts

module _ (w : World) where
  unfoldable pub detect_wildcard_dns : Text → Bool
  detect_wildcard_dns root_domain =
      leb 1 (
        length
          (w.resolve (codes "sentinel-wildcard-probe-" ++ (w.token_hex ++ b'.' ∷ root_domain))))

  -- The hosts that resolve, with their addresses.
  unfoldable pub resolved : List Text → List (Text × List Text)
  resolved [] = []
  resolved (h ∷ hosts) =
      let rest = resolved hosts in
      if leb 1 (length (w.resolve h)) then (h, w.resolve h) ∷ rest else rest

  -- The candidates.
  unfoldable pub candidate_hosts : Text → Bool → List Text
  unfolding add set_of enumerate_subdomains
  candidate_hosts root_domain has_subfinder =
      if has_subfinder
      then add root_domain (set_of (enumerate_subdomains w root_domain))
      else root_domain ∷ []

  unfoldable pub tools : ToolAvailability
  unfolding looks_like_projectdiscovery_tool
  tools = record {
    subfinder = looks_like_projectdiscovery_tool w (codes "subfinder");
    httpx = looks_like_projectdiscovery_tool w (codes "httpx");
    tlsx = looks_like_projectdiscovery_tool w (codes "tlsx");
  }

  unfoldable pub recon_notes : Text → List Note
  unfolding tools detect_wildcard_dns enumerate_subdomains candidate_hosts
  recon_notes root_domain =
      let candidates = candidate_hosts root_domain tools.subfinder in
      (if detect_wildcard_dns root_domain then wildcard_dns ∷ [] else [])
      ++ ((if tools.subfinder
            then subfinder_found (length (enumerate_subdomains w root_domain)) ∷ []
            else no_subfinder ∷ [])
          ++ ((if leb (length candidates) max_candidate_hosts
                then []
                else capped_from (length candidates) ∷ [])
              ++ (if tools.tlsx then [] else no_tlsx ∷ [])))

  unfoldable pub run_recon : Text → ReconResult
  unfolding tools candidate_hosts capped resolved probe_hosts assets_of recon_notes
  run_recon root_domain =
      let found = resolved (capped (candidate_hosts root_domain tools.subfinder)) in
      record {
        root_domain = root_domain;
        assets = assets_of root_domain (probe_hosts w (map (λ r. r.0) found) tools.httpx) found;
        tool_availability = tools;
        wildcard_dns_suspected = detect_wildcard_dns root_domain;
        notes = recon_notes root_domain;
      }
