-- ===== src/Runner/Details.antt =====
-- apps/worker/sentinel_worker_app/scan_runner.py: what a run meets, from the components that it
-- calls. The outside world is a parameter of each; an exception and a note have a text.
use security_tool.Prelude.{
  ℕ, Bool, false, not, List, [], ◌∷◌, map, none, is_some, Text, ◌==◌, text_eq, filter,
  if◌then◌else◌, Outcome, ok, raise,
}
use security_tool.Url.{Library, Fault}
use security_tool.Scope.{ScopeRule}
use security_tool.Auth.{StorageState}
use security_tool.Crawler.{SurfaceMap}
use security_tool.Targets.{Target, is_scannable}
use security_tool.Recon.{run_recon, degraded, Note}
use security_tool.Recon.Tools.{World}
use security_tool.SurfaceAdapter.{Rows, MergeFault}
use security_tool.Personas.{Persona, Organization}
use security_tool.Personas.Login.{AdapterFault, recipe_set}
use security_tool.Runner.{Facts, Established, is_empty}
use security_tool.Runner.Logins.{
  PersonaRow, Logins, Clients, Browser, no_logins, run_auth_establishing, run_crawling,
}
use security_tool.Runner.Surfaces.{write_surfaces}

pub record Shown : Type 0 where
  pub adapter_fault : AdapterFault → Text
  pub url_fault : Fault → Text
  pub merge_fault : MergeFault → Text
  pub note : Note → Text

-- The rows that a run reads, and the parts of the world that it meets.
pub record Details : Type 0 where
  pub target : Target
  pub org : Organization
  pub scope_rules : List ScopeRule
  pub personas : List PersonaRow
  pub rows : Rows
  pub scan_id : ℕ
  pub kms_master_key : Text
  pub lib : Library
  pub world : World
  pub clients : Clients
  pub browser : Browser
  pub uuid : ℕ → ℕ
  pub flush : ℕ → Outcome Text (Unit {0})
  pub shown : Shown

abbrev pub has_recipe : Persona → Bool
has_recipe p = is_some (recipe_set p.login_recipe)

-- [p for p in personas if p.login_recipe]
unfoldable pub configured_personas : List PersonaRow → List PersonaRow
unfolding filter
configured_personas rows = filter (λ row. has_recipe row.persona) rows

abbrev pub as_unit {ℓ} : {E A : Type ℓ} → (E → Text) → Outcome E A → Outcome Text (Unit {0})
as_unit show (ok x) = ok tt
as_unit show (raise e) = raise (show e)

abbrev or_no_logins : Outcome AdapterFault Logins → Logins
or_no_logins (ok s) = s
or_no_logins (raise e) = no_logins

-- What the row of a persona says after the logins.
unfoldable pub established : (ℕ → Text) → Text → List PersonaRow → Established
established str id [] = record { available = false; has_oracle = false }
established str id (row ∷ rows) =
    if str row.persona.id == id
    then record { available = row.is_available; has_oracle = is_some row.session_oracle }
    else established str id rows

abbrev pub brief : (ℕ → Text) → Persona → security_tool.Runner.Persona
brief str p = record { id = str p.id; label = p.label; has_login_recipe = has_recipe p }

module _ (d : Details) where
  unfoldable pub logins : Outcome AdapterFault Logins
  unfolding run_auth_establishing configured_personas
  logins =
      run_auth_establishing d.clients d.kms_master_key d.org d.target d.scope_rules none
        (configured_personas d.personas)

  -- The rows and the sessions that the crawls find: without a master key nobody logs in.
  abbrev pub found_by_crawls : List PersonaRow × List (Text × StorageState)
  found_by_crawls =
      if is_empty d.kms_master_key
      then (configured_personas d.personas, [])
      else ((or_no_logins logins).rows, (or_no_logins logins).in_memory_sessions)

  unfoldable pub crawls : Outcome Fault (List SurfaceMap)
  unfolding run_crawling logins configured_personas
  crawls =
      run_crawling d.lib d.browser d.clients.str d.target d.scope_rules found_by_crawls.0
        found_by_crawls.1 none

  abbrev written : Outcome Fault (List SurfaceMap) → Outcome Text (Unit {0})
  written (raise e) = raise (d.shown.url_fault e)
  written (ok surfaces) = as_unit d.shown.merge_fault (
      write_surfaces d.lib d.uuid d.scan_id (run_recon d.world d.target.root_domain).assets surfaces
        d.rows)

  unfoldable pub facts_of : Facts
  unfolding run_recon degraded logins crawls write_surfaces established
  facts_of =
      let recon = run_recon d.world d.target.root_domain in
      record {
        is_scannable = is_scannable d.target;
        recon_result =
            ok (record { degraded = degraded recon; notes = map d.shown.note recon.notes });
        has_master_key = not (is_empty d.kms_master_key);
        personas = map (λ row. brief d.clients.str row.persona) d.personas;
        login = as_unit d.shown.adapter_fault logins;
        establish = λ id. established d.clients.str id found_by_crawls.0;
        crawl = λ ids. as_unit d.shown.url_fault crawls;
        merge = written crawls;
        flush = d.flush;
      }
