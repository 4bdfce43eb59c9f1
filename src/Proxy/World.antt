-- ===== src/Proxy/World.antt =====
-- The types of env.ts and supabase.ts, the worker's replies, and the world that it calls: the
-- database behind supabase.ts, the document store, the clock and the random numbers.
use htmlradar.Common.{ℕ, Text, Option, none, some, List, [], ◌∷◌, Bool, true, false, ◌≡◌, refl}
use htmlradar.Proxy.Auth.{Platform, SetCookie}

pub record Env : Type 0 where
  pub session_secret : Text
  pub share_host : Option Text
  pub legacy_hosts : Option Text
  pub trust_wrapper : Option Text
  pub trust_handles : Option Text
  pub git_sha : Option Text

pub data DomainState : Type 0 where
  pending live disconnected retired : DomainState

pub record CustomDomain : Type 0 where
  pub id : Text
  pub owner_id : Text
  pub hostname : Text
  pub state : DomainState

pub data Tier : Type 0 where
  free pro : Tier

-- The columns that index.ts reads. An instant is in milliseconds, as `getTime` reads it.
pub record Share : Type 0 where
  pub id : Text
  pub document_id : Text
  pub owner_id : Text
  pub slug : Text
  pub require_email : Bool
  pub require_password : Bool
  pub allowed_email_domains : Option (List Text)
  pub allowed_emails : Option (List Text)
  pub lock_deck : Bool
  pub expires_at : Option ℕ
  pub revoked_at : Option ℕ
  pub host_handle : Option Text
  pub custom_domain_id : Option Text
  pub custom_domain_state : Option DomainState
  pub custom_domain_owner_id : Option Text
  pub owner_tier : Option Tier

pub record Document : Type 0 where
  pub id : Text
  pub deleted_at : Option ℕ
  pub r2_key : Option Text
  pub source_url : Option Text

pub record Attachment : Type 0 where
  pub id : Text
  pub document_id : Text
  pub filename : Text
  pub mime_type : Text
  pub size_bytes : ℕ
  pub r2_key : Text

pub data Method : Type 0 where
  get head post other : Method

pub data Protocol : Type 0 where
  http https : Protocol

-- A parsed URL; `query` is `searchParams.get`.
pub record Url : Type 0 where
  pub protocol : Protocol
  pub hostname : Text
  pub pathname : Text
  pub query : Text → Option Text

-- `form` is what `request.formData()` returns: nothing when it throws, and a name is absent when
-- its value is no string.
pub record Request : Type 0 where
  pub method : Method
  pub url : Url
  pub cookie : Option Text
  pub sec_fetch_dest : Option Text
  pub connecting_ip : Option Text
  pub form : Option (Text → Option Text)

pub data Choice : Type 0 where
  opt_out opt_in : Choice

pub data GateNote : Type 0 where
  no_note : GateNote
  password_required too_many_attempts incorrect_password : GateNote
  email_required invalid_email not_shared no_longer_shared : GateNote
  form_broken choose_reason several_reports did_not_send : GateNote

-- What `injectTracker` is told about a document that is served.
pub record Served : Type 0 where
  pub share : Share
  pub document : Document
  pub tier : Tier
  pub framed : Bool
  pub tracking_enabled : Bool
  pub email : Option Text
  pub attachments : List Attachment

pub record Wrapper : Type 0 where
  pub slug : Text
  pub print_grant : Option Text
  pub set_cookie : Option SetCookie

pub data Location : Type 0 where
  to_url : Url → Location
  to_share : Text → Location

pub data Response : Type 0 where
  not_found no_route method_not_allowed revoked expired source_unreachable : Response
  robots tracker report_sent : Response
  domain_check : (domain_id : Text) → Response
  redirect : (status : ℕ) → Location → Response
  see_other : (slug : Text) → SetCookie → Response
  opt_out_confirm : (slug : Text) → Choice → (token : Text) → (status : ℕ) → Response
  password_form : (slug : Text) → GateNote → Response
  email_gate_form : (slug : Text) → GateNote → Response
  report_form : (slug : Text) → GateNote → Response
  wrapper : Wrapper → Response
  served : Served → Response
  raw_document : Document → Response
  file : Attachment → Response

pub data Reason : Type 0 where
  was_revoked was_expired : Reason

pub data Verdict : Type 0 where
  ok bad rate_limited : Verdict

pub data Effect : Type 0 where
  notify_disabled_attempt : (share_id : Text) → Reason → Effect
  log_password : (share_id : Text) → Verdict → Effect
  log_email : (share_id : Text) → GateNote → (domain : Option Text) → Effect
  report_abuse : (slug reason : Text) → (note : Option Text) → (ip_hash : Text) → Effect
  log_download : (attachment_id share_id : Text) → (email : Option Text) → Effect

-- A read that answers, or that throws `UpstreamError`.
pub data Read (A : Type 0) : Type 0 where
  got : A → Read A
  down : Read A

pub record World : Type 0 where
  pub platform : Platform
  pub now_ms : ℕ
  pub random : List ℕ
  pub get_custom_domain_by_hostname : Text → Read (Option CustomDomain)
  pub get_share_by_slug : Text → Read (Option Share)
  pub get_document : Text → Read (Option Document)
  pub get_attachment : Text → Option Attachment
  pub list_attachments : Text → List Attachment
  pub has_html : Document → Bool
  pub has_object : Text → Bool
  pub verify_share_password : Text → Text → Verdict
  pub report_verdict : Text → Verdict

-- How a request ends: a response with what was done on the way, or an exception.
pub record Reply : Type 0 where
  pub response : Response
  pub effects : List Effect

pub data Outcome : Type 0 where
  replied : Reply → Outcome
  upstream_error : Outcome
  crashed : Outcome

-- A step of the handler: it ends the request, or goes on with a value.
pub data Step (A : Type 0) : Type 0 where
  stop : Outcome → Step A
  next : A → Step A

infixl 5 ◌>>=◌ ◌>>◌
abbrev pub ◌>>=◌ : {A B : Type 0} → Step A → (A → Step B) → Step B
stop o >>= k = stop o
next a >>= k = k a

abbrev pub ◌>>◌ : {B : Type 0} → Step (Unit {0}) → Step B → Step B
m >> k = m >>= λ _. k

abbrev pub answer : {A : Type 0} → Response → Step A
answer r = stop (replied (record { response = r; effects = [] }))

abbrev pub answer_with : {A : Type 0} → Effect → Response → Step A
answer_with e r = stop (replied (record { response = r; effects = e ∷ [] }))

-- `if (stop) return r`
abbrev pub unless : Bool → Response → Step (Unit {0})
unless true r = next tt
unless false r = answer r

abbrev pub read : {A : Type 0} → Read A → Step A
read (got a) = next a
read down = stop upstream_error

-- `if (!x) return r`
abbrev pub require : {A : Type 0} → Option A → Response → Step A
require none r = answer r
require (some a) r = next a

abbrev pub finish : Step Response → Outcome
finish (stop o) = o
finish (next r) = replied (record { response = r; effects = [] })

pub >>=-eq-next :
    {A B : Type 0} (m : Step A) (k : A → Step B) {b : B}
    → (m >>= k) ≡ next b
    → (a : A) × (m ≡ next a) × (k a ≡ next b)
>>=-eq-next (stop o) k e = cc
>>=-eq-next (next a) k e = (a, refl, e)
