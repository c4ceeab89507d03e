-- ===== src/Lib.antt =====
-- A model of the Sentinel security scanner and proofs about it.
--
-- The program scans web applications for a customer. Its HTTP engine asks a scope guard and a
-- destructive-action guard before a request, limits the rate, retries and records a transcript; a
-- crawler, with a browser of its own and the same guards, walks a site for each persona;
-- reconnaissance, with tools and a client of its own, finds hosts; a scan is a run of a state machine
-- through its phases.
--
-- Files and the code they model (paths from the repository's root; CORE stands for
-- packages/core/src/sentinel_core):
-- - Prelude: names that all modules share, texts as lists of code points, list lemmas, the outcomes
--   of code that may raise.
-- - Machine: CORE/state_machine/states.py and machine.py. `transition` and `resume` are
--   `ScanStateMachine.transition` and `.resume`; an exception is a value of `MachineError`. Laws
--   has the legal steps as a relation, History and Progress are about runs of many calls.
-- - Url: `urllib.parse.urlsplit` as far as the program uses it.
-- - Scope: CORE/scope_guard/models.py and guard.py. `evaluate` is `ScopeGuard.evaluate`, cut into
--   one function for each of its loops. Scope/Pattern and Scope/Destructive: destructive.py.
-- - Transcript: CORE/transcript/models.py, scrub.py, recorder.py and store.py: Transcript/Store has the
--   local store, Transcript/Remote the S3 store over a client (`upload` and `download` are its `put`
--   and `get`), Agreed compares the two. A body is a text or binary, as its decoding decides.
-- - Engine: CORE/http_engine/session.py and engine.py. `request` is `HttpEngine.request`; its result
--   has the list of events (the wait at the rate limiter, the calls of the HTTP client, reports to the
--   limiter, what was recorded) in their order. The client may raise what `request` does not catch.
-- - SurfaceMapper: packages/crawler/src/sentinel_crawler/surface_mapper.py.
-- - Crawler: crawler.py and models.py of the same package. `crawl_loop` is the loop of
--   `PersonaCrawler.crawl`, recursive on the pages that are left and on the queue, so no fuel is
--   needed.
-- - Llm: packages/ai/src/sentinel_ai. `complete_structured` is `LLMClient.complete_structured`; it
--   returns the budget that is left as well. `handle` has its two halves, before and after the `await`
--   of the provider, so that calls that share a budget can overlap.
-- - Targets: apps/api/sentinel_api_app: services/ownership.py, `get_owned_target` of deps.py, the
--   handlers of routers/targets.py and routers/scans.py that change a target or create a scan.
-- - Api: the requests of an organization on its targets, scope rules and scans, from the validation of
--   schemas/target.py to the answer, with the handlers of Targets and those that list; `serve` picks the
--   handler of a route.
-- - Runner: apps/worker/sentinel_worker_app/scan_runner.py. `run_scan` is the function of that name, cut
--   into its phases; a run returns the session with what it has committed, and what it meets are the
--   fields of `Facts`, the database's answers to its commits among them. Runner/Moves and Runner/Phases
--   say in which state each phase leaves a run. Runner/Logins has `_run_auth_establishing` and `_run_crawling`, Runner/Surfaces
--   what the run writes of assets and endpoints, and Runner/Details fills the fields of `Facts` in with
--   these and with the other components.
-- - RateLimiter: CORE/rate_limiter/limiter.py. `attempt` is one round of `try_acquire`, from the read
--   of the bucket to the write; Workers interleaves the rounds of many workers, Atomic is the bucket
--   whose calls are not interleaved, and Refines relates the two. Factors has the backpressure, Waiting the pauses of
--   `acquire`. A float is a number of Prelude/Numbers, whose laws are those of exact arithmetic.
-- - Auth: packages/auth/src/sentinel_auth: persona_session.py in Auth, oracle.py in Auth/Oracle,
--   models.py and replay.py in Auth/Replay. A replay returns the calls it made of the browser.
-- - Crypto: CORE/crypto/envelope.py; the cipher is a parameter.
-- - Personas: `create_organization`, `create_persona` and `get_current_org` of
--   apps/api/sentinel_api_app; Personas/Login is
--   apps/worker/sentinel_worker_app/auth_adapter.py.
-- - Findings: packages/db/src/sentinel_db/models/finding.py, and the handlers that read scans and
--   findings.
-- - Recon: packages/recon/src/sentinel_recon. `run_recon` is the function of phase.py; Recon/Tools has
--   the wrappers of the tools, Recon/Probes http_probe.py. The tools' processes, DNS and the web are
--   the fields of `World`.
-- - SurfaceAdapter: apps/worker/sentinel_worker_app/surface_adapter.py. Keyed has tables in which no
--   key has two rows.
-- - Substrate: apps/worker/sentinel_worker_app/substrate.py, and Substrate/Reach, what the engine of a
--   target can reach.
-- - Schema: packages/db, the two migrations of migrations/versions as lists of the operations of Alembic
--   (Accounts, Scans, Surfaces and Results have the tables of the first one, Initial its scripts, Recon
--   is the second one) and the columns that src/sentinel_db/models and base.py declare (CustomerModels,
--   ScanModels, ResultModels, Models). Runs has what PostgreSQL is documented to do at an operation, and
--   which operations it is certain not to refuse.
-- - Licences: infra/scripts/licence_check.py, the verdicts and the exit code.
--
-- Bounds: the retry loop is recursive on the attempts that are left, `max_attempts` at the start; the
-- matcher of the default patterns is recursive on the text. A round of the limiter is repeated ten
-- times, as in the code; `acquire` is recursive on fuel, the number of its rounds. All functions are total.
--
-- Not modelled, or parameters: regular expressions that customers write (`Library.search`, where
-- `none` is `re.error`), the check of a bracketed or non-ASCII network location
-- (`Library.netloc_valid`), what the HTTP client and the browser return, the client of boto3, the
-- hash and the JSON serialisation of a transcript. Letters change case in ASCII only, and digits
-- are ASCII. Messages and notes are values that keep what they mention. The cookies that the shared
-- HTTP client keeps of earlier responses and may add to a request are not modelled, nor is a rate
-- limiter or a recorder that raises; the reports to the limiter read and write its factor at once.
-- Logging, the measured times and the rounding of floats are left out, and so are the timeouts of a
-- replay. The relationships and Python defaults of the database's models, the other web routes and
-- the configuration are not modelled.
pub mod Prelude
pub mod Machine
pub mod Url
pub mod Scope
pub mod Transcript
pub mod Engine
pub mod SurfaceMapper
pub mod Crawler
pub mod RateLimiter
pub mod Auth
pub mod Crypto
pub mod Personas
pub mod Findings
pub mod Llm
pub mod Targets
pub mod Runner
pub mod Licences
pub mod Recon
pub mod SurfaceAdapter
pub mod Substrate
pub mod Schema
pub mod Api
