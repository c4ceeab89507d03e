-- ===== src/Recon/Tools.antt =====
-- packages/recon/src/sentinel_recon: tooling.py, subfinder_wrapper.py and tlsx_wrapper.py, with what
-- they ask of the world. A set of hosts is the sorted list of its members.
use security_tool.Prelude.{
  ℕ, zero, Bool, true, false, not, ◌&&◌, ◌||◌, List, [], ◌∷◌, Option, none, some, Text, codes, ◌==◌,
  text_eq, nat_beq, ltb, lower, strip, join, if◌then◌else◌,
}
use security_tool.Auth.Oracle.{splitlines}

pub record ToolRunResult : Type 0 where
  pub ran : Bool
  pub stdout : Text
  pub stderr : Text
  pub returncode : Option ℕ
  pub timed_out : Bool

-- A JSON object: the values that are texts, numbers and lists of texts, by their keys.
pub record Document : Type 0 where
  pub text_at : Text → Option Text
  pub number_at : Text → Option ℕ
  pub texts_at : Text → Option (List Text)

-- A response of the Python client, after its redirects.
pub record Answer : Type 0 where
  pub url : Text
  pub status_code : ℕ
  pub content : Text
  pub server : Option Text

pub data Fetched : Type 0 where
  fetched : Answer → Fetched
  http_error : Text → Fetched

-- `process` is a run of a binary with its arguments and input: its two outputs and its exit code,
-- or `none` when its time is over. `resolve` is empty where DNS raises.
pub record World : Type 0 where
  pub which : Text → Bool
  pub process : Text → List Text → Option Text → Option (Text × Text × ℕ)
  pub loads : Text → Option Document
  pub resolve : Text → List Text
  pub fetch : Text → Fetched
  pub title_of : Text → Option Text
  pub token_hex : Text

-- sorted(...), on texts by their code points
unfoldable pub text_lt : Text → Text → Bool
text_lt s [] = false
text_lt [] (d ∷ t) = true
text_lt (c ∷ s) (d ∷ t) = ltb c d || nat_beq c d && text_lt s t

-- s.add(x)
unfoldable pub add : Text → List Text → List Text
unfolding text_lt
add x [] = x ∷ []
add x (y ∷ ys) =
    let later = add x ys in if x == y then y ∷ ys else if text_lt x y then x ∷ y ∷ ys else y ∷ later

unfoldable pub set_of : List Text → List Text
unfolding add
set_of [] = []
set_of (x ∷ xs) = add x (set_of xs)

abbrev pub is_set : Text → Bool
is_set [] = false
is_set (c ∷ s) = true

abbrev pub or_empty : Option Text → Text
or_empty none = []
or_empty (some s) = s

abbrev pub or_none : Option (List Text) → List Text
or_none none = []
or_none (some xs) = xs

module _ (w : World) where
  abbrev ended : Option (Text × Text × ℕ) → ToolRunResult
  ended none = record { ran = true; stdout = []; stderr = []; returncode = none; timed_out = true }
  ended (some (out, err, code)) = record {
    ran = true;
    stdout = out;
    stderr = err;
    returncode = some code;
    timed_out = false;
  }

  unfoldable pub run_tool : Text → List Text → Option Text → ToolRunResult
  run_tool binary_name args stdin =
      if not (w.which binary_name)
      then record { ran = false; stdout = []; stderr = []; returncode = none; timed_out = false }
      else ended (w.process binary_name args stdin)

  abbrev is_zero : Option ℕ → Bool
  is_zero (some zero) = true
  is_zero _ = false

  abbrev succeeded : ToolRunResult → Bool
  succeeded r = r.ran && (not r.timed_out && is_zero r.returncode)

  unfoldable pub looks_like_projectdiscovery_tool : Text → Bool
  unfolding run_tool
  looks_like_projectdiscovery_tool binary_name =
      if not (w.which binary_name)
      then false
      else succeeded (run_tool binary_name (codes "-version" ∷ []) none)

  -- The lines of a tool's output that are JSON.
  abbrev with_document : Option Document → List Document → List Document
  with_document none ds = ds
  with_document (some d) ds = d ∷ ds

  unfoldable pub documents : List Text → List Document
  unfolding strip
  documents [] = []
  documents (line ∷ lines) =
      let rest = documents lines in
      if is_set (strip line) then with_document (w.loads (strip line)) rest else rest

  unfoldable pub tool_documents : ToolRunResult → List Document
  unfolding documents splitlines
  tool_documents r = if not (succeeded r) then [] else documents (splitlines r.stdout)

  abbrev with_host : Text → List Text → List Text
  with_host [] hosts = hosts
  with_host (c ∷ host) hosts = add (lower (c ∷ host)) hosts

  unfoldable pub hosts_of : List Document → List Text
  unfolding add lower
  hosts_of [] = []
  hosts_of (d ∷ ds) = with_host (or_empty (d.text_at (codes "host"))) (hosts_of ds)

  unfoldable pub enumerate_subdomains : Text → List Text
  unfolding run_tool tool_documents hosts_of
  enumerate_subdomains root_domain = hosts_of (
      tool_documents (
        run_tool (codes "subfinder")
          (codes "-d" ∷ root_domain ∷ codes "-silent" ∷ codes "-json" ∷ []) none))

  -- `probe_tls`, which nothing calls yet: the documents of the tool.
  unfoldable pub probe_tls : List Text → List Document
  unfolding run_tool tool_documents join
  probe_tls [] = []
  probe_tls (h ∷ hosts) = tool_documents (
      run_tool (codes "tlsx") (codes "-silent" ∷ codes "-json" ∷ [])
        (some (join (10 ∷ []) (h ∷ hosts))))
