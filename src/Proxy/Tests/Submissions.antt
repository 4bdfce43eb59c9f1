-- ===== src/Proxy/Tests/Submissions.antt =====
-- A reader types a password and an address.
use htmlradar.Common.{
  ◌≡◌, ◌↔◌, ◌⊎◌, refl, Text, codes, Option, none, some, [], ◌∷◌, ◌++◌, arith, true, false, split,
  if◌then◌else◌, to_lower, same, trim, trim_start, trim_end, includes, Listed,
}
use htmlradar.Common.Decimal.{to_dec}
use htmlradar.Proxy.Auth.{
  issue_auth_cookie, issue_email_cookie, hmac, hmac_bytes, base64url_encode, auth_message,
  email_message, latest, cookie, SetCookie,
}
use htmlradar.Proxy.World.{
  Share, post, https, Request, Reply, replied, see_other, log_password, log_email, ok, no_note,
  not_found, next,
}
use htmlradar.Proxy.Gates.{
  handle_password_submit, handle_email_submit, is_email_format, is_email_allowed, domain_part,
  listed,
}
use htmlradar.Proxy.Gates.Allowed.{is_email_allowed_iff}
use htmlradar.Proxy.Gates.Entry.{
  PasswordEntry, EmailEntry, handle_password_submit-see_other, handle_email_submit-see_other,
}
use htmlradar.Proxy.Handler.{password_gate, email_gate}
use htmlradar.Proxy.Handler.Reentry.{password_gate-submit, email_gate-submit}
use htmlradar.Proxy.Tests.{toy, toy-IsBase64Standard, toy-IsSigner, toy-IsUtf8}
use htmlradar.Proxy.Tests.Tokens.{deck, key, reader, deck_words, reader-IsPlain}
use htmlradar.Proxy.Tests.Requests.{env, share, world}

-- The share of the requests, with an allow-list too.
abbrev listed_share : Share
listed_share = record share {
  require_email = true;
  allowed_email_domains = some (codes "b.co" ∷ []);
}

abbrev typed : Text → Option Text
typed name =
    if same name (codes "password")
    then some (codes "pw")
    else if same name (codes "email")
    then some (codes " A@b.co ")
    else none

abbrev sends : Option Text → Request
sends header = record {
  method = post;
  url = record {
    protocol = https;
    hostname = codes "htmlradar.page";
    pathname = codes "/r/q3/auth";
    query = λ name. none;
  };
  cookie = header;
  sec_fetch_dest = none;
  connecting_ip = none;
  form = some typed;
}

abbrev password_set : SetCookie
password_set = issue_auth_cookie toy deck key 60

abbrev email_set : SetCookie
email_set = issue_email_cookie toy deck reader key 60

abbrev password_reply : Reply
password_reply = record {
  response = see_other deck password_set;
  effects = log_password (codes "s") ok ∷ [];
}

abbrev email_reply : Reply
email_reply = record {
  response = see_other deck email_set;
  effects = log_email (codes "s") no_note (some (codes "b.co")) ∷ [];
}

password_sent : handle_password_submit world env (sends none) listed_share ≡ replied password_reply
unfolding handle_password_submit same
password_sent = refl

email_sent : handle_email_submit world env (sends none) listed_share ≡ replied email_reply
unfolding handle_email_submit same to_lower trim trim_start trim_end is_email_format
    is_email_allowed split domain_part includes
email_sent = refl

is_email_allowed_iff_example : (is_email_allowed listed_share reader ≡ true) ↔ (
    (listed listed_share.allowed_emails ≡ []) × (listed listed_share.allowed_email_domains ≡ [])
    ⊎ Listed reader (listed listed_share.allowed_emails)
    ⊎ Listed (codes "b.co") (listed listed_share.allowed_email_domains))
is_email_allowed_iff_example =
    is_email_allowed_iff listed_share (codes "a") (codes "b.co") (omega arith) (omega arith)

handle_password_submit-see_other_example :
    PasswordEntry world env (sends none) listed_share password_reply deck password_set
handle_password_submit-see_other_example =
    handle_password_submit-see_other world env (sends none) listed_share password_reply deck
      password_set password_sent refl

handle_email_submit-see_other_example :
    EmailEntry world env (sends none) listed_share deck email_set
handle_email_submit-see_other_example =
    handle_email_submit-see_other world env (sends none) listed_share email_reply deck email_set
      email_sent refl

abbrev auth_header : Text
auth_header = password_set.name ++ b'=' ∷ password_set.value

abbrev email_header : Text
email_header = email_set.name ++ b'=' ∷ email_set.value

kept :
    (cookie auth_header password_set.name ≡ some password_set.value)
    × (cookie email_header email_set.name ≡ some email_set.value)
unfolding issue_auth_cookie issue_email_cookie cookie latest split trim_start same to_dec hmac
    hmac_bytes base64url_encode auth_message email_message
kept = (refl, refl)

typed_email : typed (codes "email") ≡ some (codes " A@b.co ")
unfolding same
typed_email = refl

password_gate-submit_example :
    password_gate world env (sends (some auth_header)) listed_share deck false not_found ≡ next tt
password_gate-submit_example =
    password_gate-submit world world env (sends none) (sends (some auth_header)) listed_share
      password_reply deck auth_header password_set not_found toy-IsBase64Standard toy-IsSigner refl
      deck_words password_sent refl refl kept.0 (omega arith)

email_gate-submit_example :
    email_gate world env (sends (some email_header)) listed_share deck false not_found not_found
    ≡ next (some reader)
unfolding to_lower trim trim_start trim_end is_email_allowed split domain_part includes same
email_gate-submit_example =
    email_gate-submit world world env (sends none) (sends (some email_header)) listed_share
      listed_share email_reply deck email_header email_set not_found not_found typed
      (codes " A@b.co ") toy-IsBase64Standard toy-IsSigner toy-IsUtf8 refl deck_words refl
      typed_email reader-IsPlain (omega arith) email_sent refl refl kept.1 (omega arith) refl refl
