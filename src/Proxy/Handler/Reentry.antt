-- ===== src/Proxy/Handler/Reentry.antt =====
-- A reader who was let in through a gate stays in: the cookie that the submission set opens the gate.
use htmlradar.Common.{
  ◌+◌, ◌≤◌, ◌≡◌, refl, Text, codes, Option, some, true, false, All, arith, trim, to_lower, is_some,
}
use htmlradar.Proxy.Auth.{
  ttl_seconds, cookie, SetCookie, issue_auth_cookie, issue_email_cookie, verify_auth_cookie,
  verify_email_cookie, VerifiedEmail,
}
use htmlradar.Proxy.Auth.Messages.{IsWord}
use htmlradar.Proxy.Auth.Base64.{IsBase64Standard, IsSigner, IsUtf8, IsPlain, HasNoMark}
use htmlradar.Proxy.Auth.RoundTrip.{verify-issue_auth_cookie, verify-issue_email_cookie}
use htmlradar.Proxy.World.{World, Env, Request, Share, Response, Reply, replied, see_other, next}
use htmlradar.Proxy.Gates.{
  handle_password_submit, handle_email_submit, now_seconds, is_email_allowed,
}
use htmlradar.Proxy.Gates.Entry.{handle_password_submit-see_other, handle_email_submit-see_other}
use htmlradar.Proxy.Handler.{password_gate, email_gate}

password_gate_opens :
    (w : World) (env : Env) (request : Request) (share : Share) (slug : Text) (closed : Response)
    → is_some (verify_auth_cookie w.platform request.cookie slug env.session_secret (now_seconds w))
      ≡ true
    → password_gate w env request share slug false closed ≡ next tt
unfolding password_gate
password_gate_opens w env request share slug closed h = ground arith

email_gate_opens :
    (w : World) (env : Env) (request : Request) (share : Share) (slug : Text)
    (closed unlisted : Response) (found : VerifiedEmail)
    → verify_email_cookie w.platform request.cookie slug env.session_secret (now_seconds w)
      ≡ some found
    → share.require_email ≡ true
    → is_email_allowed share found.email ≡ true
    → email_gate w env request share slug false closed unlisted ≡ next (some found.email)
unfolding email_gate is_email_allowed
email_gate_opens w env request share slug closed unlisted found h asked admits =
    rw (asked, h, admits) refl

-- On a platform whose base64 keeps the standard and whose signatures are bytes, and for a slug that a
-- route can hold: the password that was accepted opens the password gate, on any later request
-- within a day that sends its cookie back.
pub password_gate-submit :
    (w later : World) (env : Env) (request again : Request) (share : Share) (r : Reply)
    (slug header : Text) (set : SetCookie) (closed : Response)
    → IsBase64Standard w.platform
    → IsSigner w.platform
    → later.platform ≡ w.platform
    → All IsWord share.slug
    → handle_password_submit w env request share ≡ replied r
    → r.response ≡ see_other slug set
    → again.cookie ≡ some header
    → cookie header set.name ≡ some set.value
    → now_seconds later ≤ now_seconds w + ttl_seconds
    → password_gate later env again share slug false closed ≡ next tt
password_gate-submit w later env request again share r slug header set closed std signer same_p
      words e h sent back soon =
    let (_, _, _, _, same_slug, same_set, _) =
      handle_password_submit-see_other w env request share r slug set e h in
    let issued = issue_auth_cookie w.platform share.slug env.session_secret (now_seconds w) in
    let kept : cookie header issued.name ≡ some issued.value = rw (← same_set) back in
    let verified =
      verify-issue_auth_cookie w.platform share.slug env.session_secret header (now_seconds w)
        (now_seconds later) std signer words soon kept in
    password_gate_opens later env again share slug closed
      (rw (same_p, sent, same_slug, verified) refl)

typed_once :
    {o : Option (Text → Option Text)} {f g : Text → Option Text} {a b name : Text}
    → o ≡ some f
    → f name ≡ some a
    → o ≡ some g
    → g name ≡ some b
    → b ≡ a
typed_once e h k l = cc

-- On a platform that keeps the standards of base64 and UTF-8 and whose signatures are bytes, for a slug
-- that a route can hold and an address that UTF-8 gives back (no half of a surrogate pair, and no mark
-- U+FEFF in front): the address that was accepted opens the email gate on any later request within a
-- day that sends its cookie back, for as long as the share's list admits the address; it is the
-- address that the reader typed, trimmed and in lower case.
pub email_gate-submit :
    (w later : World) (env : Env) (request again : Request) (share now : Share) (r : Reply)
    (slug header : Text) (set : SetCookie) (closed unlisted : Response) (form : Text → Option Text)
    (raw : Text)
    → IsBase64Standard w.platform
    → IsSigner w.platform
    → IsUtf8 w.platform
    → later.platform ≡ w.platform
    → All IsWord share.slug
    → request.form ≡ some form
    → form (codes "email") ≡ some raw
    → All IsPlain (to_lower (trim raw))
    → HasNoMark (to_lower (trim raw))
    → handle_email_submit w env request share ≡ replied r
    → r.response ≡ see_other slug set
    → again.cookie ≡ some header
    → cookie header set.name ≡ some set.value
    → now_seconds later ≤ now_seconds w + ttl_seconds
    → now.require_email ≡ true
    → is_email_allowed now (to_lower (trim raw)) ≡ true
    → email_gate later env again now slug false closed unlisted ≡ next (some (to_lower (trim raw)))
email_gate-submit w later env request again share now r slug header set closed unlisted form raw std
      signer utf8 same_p words f g plain bare e h sent back soon asked admits =
    let (raw2, (form2, f2, g2), _, _, same_slug, same_set) =
      handle_email_submit-see_other w env request share r slug set e h in
    let same_raw : raw2 ≡ raw = typed_once f g f2 g2 in
    let issued =
      issue_email_cookie w.platform share.slug (to_lower (trim raw)) env.session_secret
        (now_seconds w) in
    let same_issued : set ≡ issued = rw (← same_raw) same_set in
    let kept : cookie header issued.name ≡ some issued.value = rw (← same_issued) back in
    let verified =
      verify-issue_email_cookie w.platform share.slug (to_lower (trim raw)) env.session_secret
        header (now_seconds w) (now_seconds later) std signer utf8 words plain bare soon kept in
    email_gate_opens later env again now slug closed unlisted
      (record {
        slug = share.slug;
        email = to_lower (trim raw);
        expires_at = now_seconds w + ttl_seconds;
      })
      (rw (same_p, sent, same_slug) verified) asked admits
