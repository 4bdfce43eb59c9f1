-- ===== src/Proxy/Auth.antt =====
-- packages/proxy/src/auth.ts: stateless signed cookies, tokens and grants. The Web Crypto, text
-- encoding and base64 of the platform are the record `Platform`; the clock is an argument `now`, in
-- seconds; an `await` of a signature is a plain call, since nothing is shared across it.
pub mod Base64
pub mod Compare
pub mod Header
pub mod Messages
pub mod Parts
pub mod RoundTrip
pub mod Soundness
use Prim.Native.Nat.{bit_or, bit_xor}
use htmlradar.Common.{
  ℕ, zero, suc, ◌+◌, ◌-◌, ◌*◌, ◌/◌, ◌%◌, ◌≤◌, ◌<◌, ◌≡◌, refl, Bool, true, false, not, ◌&&◌, ◌||◌,
  Option, none, some, List, [], ◌∷◌, ◌++◌, map, Text, codes, same, split, to_lower, drop, length,
  take, if◌then◌else◌, ltb, leb, ◌==◌, is_space, is_digit, trim_start, ◌>>=◌, ◌>>◌, guard, is_some,
}
use htmlradar.Common.Decimal.{Parsed, nan, number, minus, to_dec, parse_int}

-- What the worker takes from its platform: `TextEncoder.encode`, `TextDecoder.decode`, the
-- HMAC-SHA-256 of `crypto.subtle` (key, then message), `btoa`, and `atob`, which may throw.
pub record Platform : Type 0 where
  pub encode : Text → List ℕ
  pub decode : List ℕ → Text
  pub sign : List ℕ → List ℕ → List ℕ
  pub btoa : List ℕ → Text
  pub atob : Text → Option (List ℕ)

abbrev pub pwd_prefix : Text
pwd_prefix = codes "htmlradar_auth_"

abbrev pub email_prefix : Text
email_prefix = codes "htmlradar_email_"

abbrev pub ttl_seconds : ℕ
ttl_seconds = 24 * 60 * 60

-- Also the lifetime of an opt-out token and of a print grant.
abbrev pub owner_preview_ttl_seconds : ℕ
owner_preview_ttl_seconds = 10 * 60

-- The texts that are signed, one function for each template of the source.
unfoldable pub auth_message : Text → ℕ → Text
auth_message slug expires_at = slug ++ b':' ∷ to_dec expires_at

unfoldable pub email_message : Text → Text → ℕ → Text
email_message slug email expires_at = slug ++ b':' ∷ (email ++ b':' ∷ to_dec expires_at)

unfoldable pub owner_preview_message : Text → ℕ → Text
owner_preview_message slug expires_at = codes "owner-preview:" ++ (slug ++ b':' ∷ to_dec expires_at)

unfoldable pub owner_doc_message : Text → ℕ → Text
owner_doc_message doc_id expires_at =
    codes "owner-doc-preview:" ++ (doc_id ++ b':' ∷ to_dec expires_at)

unfoldable pub opt_out_message : Text → Text → Text → ℕ → Text
opt_out_message optout slug hostname expires_at =
    optout ++ b'|' ∷ (slug ++ b'|' ∷ (hostname ++ b'|' ∷ to_dec expires_at))

unfoldable pub print_message : Text → Text → Text → ℕ → Text
print_message slug hostname cookie_secret expires_at =
    codes "print:"
    ++ (slug ++ b'|' ∷ (to_lower hostname ++ b'|' ∷ (cookie_secret ++ b'|' ∷ to_dec expires_at)))

unfoldable pub reporter_message : Text → Text
reporter_message address = codes "abuse-reporter:" ++ address

-- The value of `name` in `Object.fromEntries`: the last entry of that name.
unfoldable pub latest : Text → Option Text → List (Text × Text) → Option Text
latest name found [] = found
latest name found ((key, value) ∷ rest) =
    latest name (if same key name then some value else found) rest

-- `part.indexOf('=')`, with what stands on both sides; `none` when it is not there.
cut_at : ℕ → Text → Option (Text × Text)
cut_at sep [] = none
cut_at sep (c ∷ s) = elim (c == sep) [
  | true ↦ some ([], s)
  | false ↦ elim (cut_at sep s) [ none ↦ none | some (l, r) ↦ some (c ∷ l, r) ]
]

-- A part with no `=`, or that begins with one (`idx <= 0`), is passed over.
entry : Option (Text × Text) → List (Text × Text)
entry none = []
entry (some ([], r)) = []
entry (some (c ∷ l, r)) = (c ∷ l, r) ∷ []

-- The parts of a split at `;` after the first one lose their leading white space: `/;\s*/`.
strip_rest : List Text → List Text
strip_rest [] = []
strip_rest (part ∷ parts) = part ∷ map trim_start parts

entries : List Text → List (Text × Text)
entries [] = []
entries (part ∷ parts) = entry (cut_at b'=' part) ++ entries parts

-- `parseCookies(header)[name]`
unfoldable pub cookie : Text → Text → Option Text
unfolding latest cut_at entry strip_rest entries split trim_start
cookie header name = latest name none (entries (strip_rest (split b';' header)))

-- `constantTimeEqual`: the exclusive ors of the code units, joined by `|`.
differences : ℕ → Text → Text → ℕ
differences diff (a ∷ s) (b ∷ t) = differences (bit_or diff (bit_xor a b)) s t
differences diff _ _ = diff

unfoldable pub constant_time_equal : Text → Text → Bool
unfolding differences
constant_time_equal a b = if length a == length b then differences 0 a b == 0 else false

-- `isFinite(expiresAt)` and `expiresAt >= now`: an expiry that is still good.
abbrev pub live_expiry : Parsed → ℕ → Option ℕ
live_expiry nan now = none
live_expiry (minus n) now = none
live_expiry (number n) now = if ltb n now then none else some n

abbrev url_safe : ℕ → ℕ
url_safe c = if c == b'+' then b'-' else if c == b'/' then b'_' else c

abbrev url_unsafe : ℕ → ℕ
url_unsafe c = if c == b'-' then b'+' else if c == b'_' then b'/' else c

-- `.replace(/=+$/, '')`
drop_pads : Text → Text
drop_pads [] = []
drop_pads (c ∷ s) = elim (drop_pads s) [ [] ↦ if c == b'=' then [] else c ∷ [] | d ∷ t ↦ c ∷ d ∷ t ]

abbrev hex_digit : ℕ → ℕ
hex_digit n = if ltb n 10 then b'0' + n else b'a' + (n - 10)

-- `b.toString(16).padStart(2, '0')` for each byte, joined.
unfoldable pub to_hex : List ℕ → Text
to_hex [] = []
to_hex (b ∷ bytes) = hex_digit (b / 16) ∷ hex_digit (b % 16) ∷ to_hex bytes

abbrev is_hex : ℕ → Bool
is_hex c = is_digit c || leb b'a' c && leb c b'f'

abbrev all_hex : Text → Bool
all_hex [] = true
all_hex (c ∷ s) = is_hex c && all_hex s

-- A `Set-Cookie` header of this worker. `cookieAttrs` writes the last four alike for both gates.
pub record SetCookie : Type 0 where
  pub name : Text
  pub value : Text
  pub path : Text
  pub max_age : ℕ
  pub http_only : Bool
  pub secure : Bool
  pub same_site_lax : Bool

abbrev cookie_attrs : Text → Text → SetCookie
cookie_attrs name value = record {
  name = name;
  value = value;
  path = codes "/";
  max_age = ttl_seconds;
  http_only = true;
  secure = true;
  same_site_lax = true;
}

abbrev recipient_cookie : Text → Text → ℕ → SetCookie
recipient_cookie name value max_age = record {
  name = name;
  value = value;
  path = codes "/r/";
  max_age = max_age;
  http_only = true;
  secure = true;
  same_site_lax = true;
}

abbrev pub opt_out_cookie : SetCookie
opt_out_cookie = recipient_cookie (codes "hr_optout") (codes "1") 31536000

abbrev pub opt_out_clear_cookie : SetCookie
opt_out_clear_cookie = recipient_cookie (codes "hr_optout") [] 0

abbrev print_cookie_name : Text
print_cookie_name = codes "hr_print"

-- `printCookie`
abbrev pub print_cookie : Text → SetCookie
print_cookie secret = recipient_cookie print_cookie_name secret (24 * 60 * 60)

abbrev found_is : Option Text → Text → Bool
found_is none s = false
found_is (some t) s = same t s

-- `isTrackingOptedOut`; a missing header and an empty one hold no cookie.
unfoldable pub is_tracking_opted_out : Option Text → Bool
is_tracking_opted_out none = false
is_tracking_opted_out (some header) = found_is (cookie header (codes "hr_optout")) (codes "1")

-- `/^[0-9a-f]{32}$/`
abbrev is_print_secret : Text → Bool
is_print_secret s = length s == 32 && all_hex s

-- `readPrintCookie`
unfoldable pub read_print_cookie : Option Text → Option Text
read_print_cookie none = none
read_print_cookie (some header) = do
  raw ← cookie header print_cookie_name
  guard (is_print_secret raw)
  some raw

-- `newPrintSecret`, over the sixteen bytes that `crypto.getRandomValues` wrote.
unfoldable pub new_print_secret : List ℕ → Text
new_print_secret bytes = to_hex bytes

-- `if (!raw) return null`
abbrev nonempty : Option Text → Option Text
nonempty none = none
nonempty (some []) = none
nonempty (some (c ∷ s)) = some (c ∷ s)

-- `parts.length !== n`, and the parts by name.
abbrev two_parts : List Text → Option (Text × Text)
two_parts (a ∷ b ∷ []) = some (a, b)
two_parts _ = none

abbrev three_parts : List Text → Option (Text × Text × Text)
three_parts (a ∷ b ∷ c ∷ []) = some (a, b, c)
three_parts _ = none

abbrev four_parts : List Text → Option (Text × Text × Text × Text)
four_parts (a ∷ b ∷ c ∷ d ∷ []) = some (a, b, c, d)
four_parts _ = none

pub record VerifiedAuth : Type 0 where
  pub slug : Text
  pub expires_at : ℕ

pub record VerifiedEmail : Type 0 where
  pub slug : Text
  pub email : Text
  pub expires_at : ℕ

module _ (p : Platform) where
  -- `base64url` of the source too, which only calls this.
  unfoldable pub base64url_encode : List ℕ → Text
  unfolding drop_pads
  base64url_encode bytes = drop_pads (map url_safe (p.btoa bytes))

  unfoldable pub base64url_decode : Text → Option (List ℕ)
  base64url_decode s =
      p.atob (map url_unsafe s ++ drop ((length s + 3) % 4) (b'=' ∷ b'=' ∷ b'=' ∷ []))

  unfoldable pub hmac_bytes : Text → Text → List ℕ
  hmac_bytes message secret = p.sign (p.encode secret) (p.encode message)

  unfoldable pub hmac : Text → Text → Text
  hmac message secret = base64url_encode (hmac_bytes message secret)

  unfoldable pub hmac_hex : Text → Text → Text
  hmac_hex message secret = to_hex (hmac_bytes message secret)

  unfoldable pub issue_auth_cookie : Text → Text → ℕ → SetCookie
  issue_auth_cookie slug secret now =
      let expires_at = now + ttl_seconds in
      cookie_attrs (pwd_prefix ++ slug)
        (slug ++ b'.' ∷ (to_dec expires_at ++ b'.' ∷ hmac (auth_message slug expires_at) secret))

  -- The body that the checks on `{subject}.{expiry}.{hmac}` share: they differ in the message.
  token_expiry : (ℕ → Text) → Text → Text → Text → ℕ → Option ℕ
  token_expiry message token subject secret now = do
    (token_subject, expiry, mac) ← three_parts (split b'.' token)
    guard (same token_subject subject)
    expires_at ← live_expiry (parse_int expiry) now
    guard (constant_time_equal mac (hmac (message expires_at) secret))
    some expires_at

  unfoldable pub verify_auth_cookie : Option Text → Text → Text → ℕ → Option VerifiedAuth
  unfolding token_expiry
  verify_auth_cookie none slug secret now = none
  verify_auth_cookie (some header) slug secret now = do
    raw ← nonempty (cookie header (pwd_prefix ++ slug))
    expires_at ← token_expiry (auth_message slug) raw slug secret now
    some (record { slug = slug; expires_at = expires_at })

  unfoldable pub issue_email_cookie : Text → Text → Text → ℕ → SetCookie
  issue_email_cookie slug email secret now =
      let expires_at = now + ttl_seconds in
      cookie_attrs (email_prefix ++ slug) (
        slug
        ++ b'.'
          ∷ (base64url_encode (p.encode email)
              ++ b'.'
                ∷ (to_dec expires_at ++ b'.' ∷ hmac (email_message slug email expires_at) secret)))

  unfoldable pub verify_email_cookie : Option Text → Text → Text → ℕ → Option VerifiedEmail
  verify_email_cookie none slug secret now = none
  verify_email_cookie (some header) slug secret now = do
    raw ← nonempty (cookie header (email_prefix ++ slug))
    (cookie_slug, b64email, expiry, mac) ← four_parts (split b'.' raw)
    guard (same cookie_slug slug)
    expires_at ← live_expiry (parse_int expiry) now
    bytes ← base64url_decode b64email
    let email = p.decode bytes
    guard (constant_time_equal mac (hmac (email_message slug email expires_at) secret))
    some (record { slug = slug; email = email; expires_at = expires_at })

  unfoldable pub issue_owner_preview_token : Text → Text → ℕ → Text
  issue_owner_preview_token slug secret now =
      let expires_at = now + owner_preview_ttl_seconds in
      slug
      ++ b'.' ∷ (to_dec expires_at ++ b'.' ∷ hmac (owner_preview_message slug expires_at) secret)

  unfoldable pub verify_owner_preview_token : Option Text → Text → Text → ℕ → Bool
  unfolding token_expiry
  verify_owner_preview_token none slug secret now = false
  verify_owner_preview_token (some token) slug secret now =
      is_some (token_expiry (owner_preview_message slug) token slug secret now)

  unfoldable pub verify_owner_doc_preview_token : Option Text → Text → Text → ℕ → Bool
  unfolding token_expiry
  verify_owner_doc_preview_token none doc_id secret now = false
  verify_owner_doc_preview_token (some token) doc_id secret now =
      is_some (token_expiry (owner_doc_message doc_id) token doc_id secret now)

  unfoldable pub issue_opt_out_token : Text → Text → Text → Text → ℕ → Text
  issue_opt_out_token optout slug hostname secret now =
      let expires_at = now + owner_preview_ttl_seconds in
      to_dec expires_at ++ b'.' ∷ hmac_hex (opt_out_message optout slug hostname expires_at) secret

  -- The body of the two checks on `{expiry}.{hex hmac}`.
  stamp_expiry : (ℕ → Text) → Text → Text → ℕ → Option ℕ
  stamp_expiry message token secret now = do
    (expiry, mac) ← two_parts (split b'.' token)
    expires_at ← live_expiry (parse_int expiry) now
    guard (constant_time_equal mac (hmac_hex (message expires_at) secret))
    some expires_at

  unfoldable pub verify_opt_out_token : Text → Text → Text → Text → Text → ℕ → Bool
  unfolding stamp_expiry
  verify_opt_out_token token optout slug hostname secret now =
      is_some (stamp_expiry (opt_out_message optout slug hostname) token secret now)

  unfoldable pub issue_print_grant : Text → Text → Text → Text → ℕ → Text
  issue_print_grant slug hostname cookie_secret secret now =
      let expires_at = now + owner_preview_ttl_seconds in
      to_dec expires_at
      ++ b'.' ∷ hmac_hex (print_message slug hostname cookie_secret expires_at) secret

  unfoldable pub verify_print_grant : Option Text → Text → Text → Option Text → Text → ℕ → Bool
  unfolding stamp_expiry
  verify_print_grant none slug hostname header secret now = false
  verify_print_grant (some grant) slug hostname header secret now = is_some do
    cookie_secret ← read_print_cookie header
    stamp_expiry (print_message slug hostname cookie_secret) grant secret now

  unfoldable pub hash_reporter_address : Text → Text → Text
  hash_reporter_address address secret = hmac_hex (reporter_message address) secret
