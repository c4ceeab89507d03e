-- ===== src/Targets.antt =====
-- apps/api/sentinel_api_app: services/ownership.py, `get_owned_target` of deps.py and the handlers
-- of routers/targets.py and routers/scans.py that change a target or create a scan; `Target` of
-- packages/db/src/sentinel_db/models/target.py. DNS, the web and the pattern of the meta tag are
-- parameters; random tokens and the time are arguments.
pub mod Gate
mod Tests
use security_tool.Prelude.{
  ℕ, Bool, true, false, not, ◌&&◌, ◌||◌, List, [], ◌∷◌, ◌++◌, Option, none, some, Text, codes,
  strip, any, ◌==◌, text_eq, nat_eq, nat_beq, if◌then◌else◌, Outcome, ok, raise, ◌>>=◌, find,
}

pub data OwnershipVerificationMethod : Type 0 where
  dns_txt well_known_file meta_tag : OwnershipVerificationMethod

pub record Target : Type 0 where
  pub id : ℕ
  pub organization_id : ℕ
  pub root_domain : Text
  pub display_name : Text
  pub is_production : Bool
  pub ownership_verified : Bool
  pub ownership_verification_method : Option OwnershipVerificationMethod
  pub ownership_verification_token : Option Text
  pub ownership_verified_at : Option ℕ
  pub authorization_accepted : Bool
  pub authorization_accepted_at : Option ℕ

-- `Target.is_scannable`
abbrev pub is_scannable : Target → Bool
is_scannable t = t.ownership_verified && t.authorization_accepted

-- What the network answers: the TXT records of a name, or `none` for a `DNSException`; the status
-- and the text of a page, or `none` for an `HTTPError`; the group of the meta tag's pattern.
pub record World : Type 0 where
  pub txt_records : Text → Option (List Text)
  pub fetch : Text → Option (ℕ × Text)
  pub meta_content : Text → Option Text

pub data Detail : Type 0 where
  matched failed no_match : Detail
  http_status : ℕ → Detail

pub record VerificationResult : Type 0 where
  pub verified : Bool
  pub detail : Detail

abbrev yes_result : VerificationResult
yes_result = record { verified = true; detail = matched }

abbrev no_result : Detail → VerificationResult
no_result d = record { verified = false; detail = d }

abbrev judge_records : Option (List Text) → Text → VerificationResult
judge_records none token = no_result failed
judge_records (some rs) token =
    if any (λ v. strip v == token) rs then yes_result else no_result no_match

unfoldable pub verify_dns_txt : World → Text → Text → VerificationResult
unfolding any strip
verify_dns_txt w domain token =
    judge_records (w.txt_records (codes "_sentinel-verify." ++ domain)) token

-- A page that must be there, judged by its text.
abbrev judge_page : Option (ℕ × Text) → (Text → Bool) → VerificationResult
judge_page none shows = no_result failed
judge_page (some (status, body)) shows =
    if not (status == 200)
    then no_result (http_status status)
    else if shows body
    then yes_result
    else no_result no_match

unfoldable pub verify_well_known_file : World → Text → Text → VerificationResult
unfolding strip
verify_well_known_file w domain token =
    judge_page (w.fetch (codes "https://" ++ (domain ++ codes "/.well-known/sentinel-verify.txt")))
      (λ body. strip body == token)

abbrev shows_tag : Option Text → Text → Bool
shows_tag none token = false
shows_tag (some v) token = strip v == token

unfoldable pub verify_meta_tag : World → Text → Text → VerificationResult
unfolding strip
verify_meta_tag w domain token =
    judge_page (w.fetch (codes "https://" ++ (domain ++ codes "/")))
      (λ body. shows_tag (w.meta_content body) token)

unfoldable pub verify_ownership :
    World → OwnershipVerificationMethod → Text → Text → VerificationResult
verify_ownership w dns_txt domain token = verify_dns_txt w domain token
verify_ownership w well_known_file domain token = verify_well_known_file w domain token
verify_ownership w meta_tag domain token = verify_meta_tag w domain token

pub data HttpError : Type 0 where
  bad_request unauthorized forbidden not_found conflict unprocessable : HttpError

abbrev if_owned : Option Target → ℕ → Outcome HttpError Target
if_owned none org = raise not_found
if_owned (some t) org = if not (t.organization_id == org) then raise not_found else ok t

-- `get_owned_target`: `session.get` is a search by the primary key.
unfoldable pub get_owned_target : List Target → ℕ → ℕ → Outcome HttpError Target
unfolding find
get_owned_target targets org target_id = if_owned (find (λ t. t.id == target_id) targets) org

-- `create_target`: what the columns' defaults say.
unfoldable pub create_target : ℕ → ℕ → Text → Text → Bool → Target
create_target id org root_domain display_name is_production = record {
  id = id;
  organization_id = org;
  root_domain = root_domain;
  display_name = display_name;
  is_production = is_production;
  ownership_verified = false;
  ownership_verification_method = none;
  ownership_verification_token = none;
  ownership_verified_at = none;
  authorization_accepted = false;
  authorization_accepted_at = none;
}

unfoldable pub create_ownership_challenge : OwnershipVerificationMethod → Text → Target → Target
create_ownership_challenge m token t = record t {
  ownership_verification_method = some m;
  ownership_verification_token = some token;
  ownership_verified = false;
  ownership_verified_at = none;
}

abbrev set_verified : ℕ → VerificationResult → Target → Target
set_verified now r t = record t {
  ownership_verified = r.verified;
  ownership_verified_at = if r.verified then some now else none;
}

abbrev pub verify_with :
    World → ℕ → Option OwnershipVerificationMethod → Option Text → Target → Outcome HttpError Target
verify_with w now none token t = raise bad_request
verify_with w now (some m) none t = raise bad_request
verify_with w now (some m) (some []) t = raise bad_request
verify_with w now (some m) (some (c ∷ token)) t =
    ok (set_verified now (verify_ownership w m t.root_domain (c ∷ token)) t)

unfoldable pub run_ownership_verification : World → ℕ → Target → Outcome HttpError Target
run_ownership_verification w now t =
    verify_with w now t.ownership_verification_method t.ownership_verification_token t

unfoldable pub accept_authorization : Bool → ℕ → Target → Outcome HttpError Target
accept_authorization accepted now t =
    if not accepted
    then raise bad_request
    else ok (record t { authorization_accepted = true; authorization_accepted_at = some now })

-- `create_scan`: the scans of the target, by the user who asked for each.
unfoldable pub create_scan : Text → Target → List Text → Outcome HttpError (List Text)
create_scan triggered_by t scans =
    if not (is_scannable t) then raise forbidden else ok (triggered_by ∷ scans)

-- The calls that a target's owner can make, one after another.
pub data Call : Type 0 where
  challenge : OwnershipVerificationMethod → Text → Call
  verify : World → ℕ → Call
  authorize : Bool → ℕ → Call
  scan : Text → Call

pub record TargetState : Type 0 where
  pub target : Target
  pub scans : List Text

abbrev keep_target : Outcome HttpError Target → TargetState → TargetState
keep_target (ok t) s = record s { target = t }
keep_target (raise e) s = s

abbrev keep_scans : Outcome HttpError (List Text) → TargetState → TargetState
keep_scans (ok l) s = record s { scans = l }
keep_scans (raise e) s = s

-- A call that raises changes nothing.
unfoldable pub handle : Call → TargetState → TargetState
handle (challenge m token) s = record s { target = create_ownership_challenge m token s.target }
handle (verify w now) s = keep_target (run_ownership_verification w now s.target) s
handle (authorize accepted now) s = keep_target (accept_authorization accepted now s.target) s
handle (scan by) s = keep_scans (create_scan by s.target s.scans) s

unfoldable pub handle_all : List Call → TargetState → TargetState
handle_all [] s = s
handle_all (c ∷ cs) s = handle_all cs (handle c s)
