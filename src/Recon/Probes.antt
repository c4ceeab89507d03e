-- ===== src/Recon/Probes.antt =====
-- packages/recon/src/sentinel_recon/http_probe.py, and the host of a probe in phase.py.
use security_tool.Prelude.{
  ℕ, Bool, ◌&&◌, List, [], ◌∷◌, ◌++◌, map, Option, none, some, Text, codes, ◌==◌, text_eq, nat_beq,
  filter, take, strip, split_once, join, starts_with, if◌then◌else◌,
}
use security_tool.Recon.Tools.{
  Document, Answer, Fetched, fetched, http_error, World, or_empty, or_none, run_tool,
  tool_documents,
}

pub record HttpProbeResult : Type 0 where
  pub url : Text
  pub status_code : Option ℕ
  pub title : Option Text
  pub server : Option Text
  pub tech : List Text
  pub error : Option Text

abbrev rest_of : Text → Text
rest_of [] = []
rest_of (c ∷ s) = s

-- probe.url.split("//", 1)[-1]
unfoldable pub after_slashes : Text → Text → Text
unfolding starts_with
after_slashes whole [] = whole
after_slashes whole (c ∷ s) =
    let later = after_slashes whole s in
    if nat_beq c b'/' && starts_with s (b'/' ∷ []) then rest_of s else later

unfoldable pub probe_host : HttpProbeResult → Text
unfolding after_slashes split_once
probe_host p = (split_once b':' (split_once b'/' (after_slashes p.url p.url)).0).0

unfoldable pub probes_of : Text → List HttpProbeResult → List HttpProbeResult
unfolding probe_host filter
probes_of host probes = filter (λ p. probe_host p == host) probes

module _ (w : World) where
  abbrev probe_of : Document → HttpProbeResult
  probe_of d = record {
    url = or_empty (d.text_at (codes "url"));
    status_code = d.number_at (codes "status_code");
    title = d.text_at (codes "title");
    server = d.text_at (codes "webserver");
    tech = or_none (d.texts_at (codes "tech"));
    error = none;
  }

  unfoldable pub probe_via_binary : List Text → List HttpProbeResult
  unfolding run_tool tool_documents join
  probe_via_binary hosts = map probe_of (
      tool_documents w (
        run_tool w (codes "httpx")
          (codes "-silent"
            ∷ codes "-json"
            ∷ codes "-title"
            ∷ codes "-server"
            ∷ codes "-tech-detect"
            ∷ [])
          (some (join (10 ∷ []) hosts))))

  abbrev stripped : Option Text → Option Text
  stripped none = none
  stripped (some t) = some (strip t)

  abbrev probed : Answer → HttpProbeResult
  probed a = record {
    url = a.url;
    status_code = some a.status_code;
    title = stripped (w.title_of (take 8192 a.content));
    server = a.server;
    tech = [];
    error = none;
  }

  abbrev unreachable : Text → Text → HttpProbeResult
  unreachable url message = record {
    url = url;
    status_code = none;
    title = none;
    server = none;
    tech = [];
    error = some message;
  }

  abbrev url_of : Text → Text → Text
  url_of scheme host = scheme ++ (codes "://" ++ (host ++ codes "/"))

  abbrev second_try : Text → Fetched → HttpProbeResult
  second_try url (fetched a) = probed a
  second_try url (http_error m) = unreachable url m

  abbrev first_try : Text → Fetched → HttpProbeResult
  first_try host (fetched a) = probed a
  first_try host (http_error m) =
      second_try (url_of (codes "http") host) (w.fetch (url_of (codes "http") host))

  -- `_probe_one_via_python`: by https, then by http.
  unfoldable pub probe_one : Text → HttpProbeResult
  unfolding strip
  probe_one host = first_try host (w.fetch (url_of (codes "https") host))

  unfoldable pub probe_hosts : List Text → Bool → List HttpProbeResult
  unfolding probe_via_binary probe_one
  probe_hosts [] binary_available = []
  probe_hosts (h ∷ hosts) binary_available =
      if binary_available then probe_via_binary (h ∷ hosts) else map probe_one (h ∷ hosts)
