-- ===== src/Proxy/Handler.antt =====
-- index.ts: `handleRequest` and `fetch`, stage by stage in the order of the source.
pub mod Steps
pub mod Quiet
pub mod Content
pub mod Replies
pub mod Answers
pub mod Reentry
use htmlradar.Common.{
  ℕ, ◌<◌, ◌≡◌, refl, Text, codes, Option, none, some, List, [], ◌∷◌, ◌++◌, Bool, true, false, not,
  ◌&&◌, ◌||◌, ltb, if◌then◌else◌, same, is_some, or_else,
}
use htmlradar.Proxy.Auth.{
  verify_auth_cookie, verify_email_cookie, verify_owner_preview_token,
  verify_owner_doc_preview_token, verify_print_grant, issue_opt_out_token, issue_print_grant,
  is_tracking_opted_out, read_print_cookie, new_print_secret, print_cookie, VerifiedEmail,
  SetCookie,
}
use htmlradar.Proxy.World.{
  Env, Share, Document, Attachment, Method, get, head, post, other, Protocol, http, https, Url,
  Request, Choice, opt_out, opt_in, no_note, no_longer_shared, Served, Wrapper, Location, to_url,
  to_share, Response, not_found, no_route, method_not_allowed, revoked, expired, source_unreachable,
  robots, tracker, domain_check, redirect, opt_out_confirm, password_form, email_gate_form,
  report_form, wrapper, served, raw_document, file, Reason, was_revoked, was_expired,
  notify_disabled_attempt, log_download, World, Outcome, replied, upstream_error, crashed, Step,
  stop, next, ◌>>=◌, ◌>>◌, answer, answer_with, unless, read, require, finish, Tier, free,
}
use htmlradar.Proxy.Hosts.{
  HostKind, apex, handle, custom, claim, refused, share_host_of, is_local, is_legacy_host,
  resolve_host, enforce_stored_host, wrapper_enabled,
}
use htmlradar.Proxy.Routes.{
  Subroute, auth, email, report, frame, print, Route, preview_of, file_of, share_of, no_match,
  route_of,
}
use htmlradar.Proxy.Gates.{
  is_email_allowed, handle_opt_out_submit, handle_password_submit, handle_email_submit,
  handle_report_submit, choice_of, choice_text, now_seconds,
}

abbrev is_http : Protocol → Bool
is_http http = true
is_http https = false

abbrev is_post : Method → Bool
is_post post = true
is_post _ = false

abbrev is_get : Method → Bool
is_get get = true
is_get _ = false

abbrev is_read : Method → Bool
is_read get = true
is_read head = true
is_read _ = false

abbrev pub is_framed : Option Subroute → Bool
is_framed (some frame) = true
is_framed (some print) = true
is_framed _ = false

abbrev pub is_frame : Option Subroute → Bool
is_frame (some frame) = true
is_frame _ = false

abbrev pub is_print : Option Subroute → Bool
is_print (some print) = true
is_print _ = false

-- Wrong host or wrong scheme: one redirect for both.
unfoldable pub moved : Env → Url → Method → Option Url
moved env url method =
    let wrong_host = is_legacy_host url.hostname env && not (is_post method) in
    let hostname = if wrong_host then share_host_of env else url.hostname in
    let wrong_scheme = is_http url.protocol && not (is_local hostname) in
    if wrong_host || wrong_scheme
    then some (record url {
      hostname = hostname;
      protocol = if wrong_scheme then https else url.protocol;
    })
    else none

-- `!!share.revoked_at`, and an expiry that is past.
unfoldable pub is_expired : World → Share → Bool
is_expired w share = elim share.expires_at [ none ↦ false | some at ↦ ltb at w.now_ms ]

unfoldable pub is_disabled : World → Share → Bool
unfolding is_expired
is_disabled w share = is_some share.revoked_at || is_expired w share

-- The part of the gate sequence that asks for a password.
module _ (w : World) (env : Env) (request : Request) where
  unfoldable pub password_gate : Share → Text → Bool → Response → Step (Unit {0})
  password_gate share slug preview closed =
      if share.require_password && not preview
      then unless
          (is_some
            (verify_auth_cookie w.platform request.cookie slug env.session_secret (now_seconds w)))
          closed
      else next tt

  -- The address that the cookie proves, if it is still on the share's list.
  unfoldable pub email_gate : Share → Text → Bool → Response → Response → Step (Option Text)
  email_gate share slug preview closed unlisted =
      if share.require_email && not preview
      then (do
        found ←
            require
              (verify_email_cookie w.platform request.cookie slug env.session_secret
                (now_seconds w))
              closed
        unless (is_email_allowed share found.email) unlisted
        next (some found.email))
      else next none

  -- A share that was turned off tells its reader why, and its owner that somebody came.
  unfoldable pub disabled_gate : Share → Bool → Step (Unit {0})
  unfolding is_expired
  disabled_gate share preview =
      if preview
      then next tt
      else if is_some share.revoked_at
      then answer_with (notify_disabled_attempt share.id was_revoked) revoked
      else if is_expired w share
      then answer_with (notify_disabled_attempt share.id was_expired) expired
      else next tt

  -- The recipient's own switch for read tracking, on the share's own address.
  unfoldable pub opt_out_stage : Text → Option Subroute → Step (Unit {0})
  opt_out_stage slug (some sub) = next tt
  opt_out_stage slug none =
      if is_post request.method
      then handle_opt_out_submit w env request slug request.url.hostname
      else elim (choice_of (request.url.query (codes "optout"))) [
        | none ↦ next tt
        | some choice ↦ answer (
            opt_out_confirm slug choice
              (issue_opt_out_token w.platform (choice_text choice) slug request.url.hostname
                env.session_secret (now_seconds w))
              200)
      ]

  to_wrapper : Text → Response
  to_wrapper slug = redirect 302 (to_share slug)

  -- Frame and print refuse to be reached round the wrapper; the report form is answered here.
  unfoldable pub side_routes : Share → Text → Option Subroute → Step (Unit {0})
  unfolding to_wrapper
  side_routes share slug (some frame) =
      unless (elim request.sec_fetch_dest [ none ↦ false | some dest ↦ same dest (codes "iframe") ])
        (to_wrapper slug)
  side_routes share slug (some print) =
      unless
        (verify_print_grant w.platform (request.url.query (codes "g")) slug request.url.hostname
          request.cookie env.session_secret (now_seconds w))
        (to_wrapper slug)
  side_routes share slug (some report) =
      if is_post request.method
      then stop (handle_report_submit w env request share)
      else if is_get request.method
      then answer (report_form slug no_note)
      else answer method_not_allowed
  side_routes share slug _ = next tt

  -- The two gate submissions.
  unfoldable pub submissions : Share → Option Subroute → Step (Unit {0})
  submissions share (some auth) =
      if is_post request.method
      then stop (handle_password_submit w env request share)
      else answer method_not_allowed
  submissions share (some email) =
      if is_post request.method
      then stop (handle_email_submit w env request share)
      else answer method_not_allowed
  submissions share _ = next tt

  unfoldable pub is_owner_preview : Text → Bool
  is_owner_preview slug =
      verify_owner_preview_token w.platform (request.url.query (codes "owner_preview")) slug
        env.session_secret (now_seconds w)

  -- The cookie is set only when it is new.
  wrapper_for : Share → Text → Wrapper
  wrapper_for share slug =
      let existing = read_print_cookie request.cookie in
      let secret = or_else existing (new_print_secret w.random) in
      if share.lock_deck
      then record { slug = slug; print_grant = none; set_cookie = none }
      else record {
        slug = slug;
        print_grant = some (
            issue_print_grant w.platform slug request.url.hostname secret env.session_secret
              (now_seconds w));
        set_cookie = if is_some existing then none else some (print_cookie secret);
      }

  unfoldable pub wrapper_stage : Share → Text → Option Subroute → Bool → Step (Unit {0})
  unfolding wrapper_for
  wrapper_stage share slug (some sub) preview = next tt
  wrapper_stage share slug none preview =
      if not preview && wrapper_enabled slug env
      then answer (wrapper (wrapper_for share slug))
      else next tt

  unfoldable pub open_document : Text → Step Document
  open_document id = do
    found ← read (w.get_document id)
    doc ← require found not_found
    unless (not (is_some doc.deleted_at)) not_found
    unless (w.has_html doc) source_unreachable
    next doc

  unfoldable pub serve_document : Share → Option Subroute → Bool → Option Text → Step Response
  unfolding open_document
  serve_document share sub preview verified = do
    doc ← open_document share.document_id
    next (
        served (record {
          share = share;
          document = doc;
          tier = or_else share.owner_tier free;
          framed = is_frame sub;
          tracking_enabled =
              not (is_print sub) && not preview && not (is_tracking_opted_out request.cookie);
          email = verified;
          attachments = if preview then [] else w.list_attachments doc.id;
        }))

  -- Everything behind the lookup and the stored host.
  unfoldable pub share_stages : Share → Text → Option Subroute → Step Response
  share_stages share slug sub = do
    opt_out_stage slug sub
    side_routes share slug sub
    let preview = is_owner_preview slug
    unless (not (is_framed sub && is_disabled w share)) not_found
    disabled_gate share preview
    submissions share sub
    password_gate share slug preview
        (if is_framed sub then not_found else password_form slug no_note)
    verified ←
        email_gate share slug preview
          (if is_framed sub then not_found else email_gate_form slug no_note)
          (if is_framed sub then not_found else email_gate_form slug no_longer_shared)
    wrapper_stage share slug sub preview
    serve_document share sub preview verified

  unfoldable pub stored_host : HostKind → Share → Step (Unit {0})
  stored_host host share = elim (enforce_stored_host host share request.url request.method env) [
    | none ↦ next tt
    | some r ↦ answer r
  ]

  unfoldable pub share_route : HostKind → Text → Option Subroute → Step Response
  share_route host slug sub = do
    unless (not (is_framed sub && not (wrapper_enabled slug env))) not_found
    found ← read (w.get_share_by_slug slug)
    share ← require found not_found
    stored_host host share
    share_stages share slug sub

  -- `handleAttachmentDownload`; the log is written whatever becomes of it.
  unfoldable pub download_route : HostKind → Text → Text → Step Response
  download_route host slug id = do
    unless (is_get request.method) method_not_allowed
    found ← read (w.get_share_by_slug slug)
    share ← require found not_found
    stored_host host share
    unless (not (is_disabled w share)) not_found
    password_gate share slug false not_found
    verified ← email_gate share slug false not_found not_found
    item ← require (w.get_attachment id) not_found
    unless (same item.document_id share.document_id) not_found
    unless (w.has_object item.r2_key) not_found
    answer_with (log_download item.id share.id verified) (file item)

  -- The sender's own preview of an upload, on the apex alone.
  unfoldable pub preview_route : HostKind → Text → Step Response
  unfolding open_document
  preview_route host doc_id = do
    unless (elim host [ apex ↦ true | _ ↦ false ]) not_found
    unless
        (verify_owner_doc_preview_token w.platform (request.url.query (codes "owner_doc_preview"))
          doc_id env.session_secret (now_seconds w))
        not_found
    doc ← open_document doc_id
    next (raw_document doc)

  abbrev claimed_domain : HostKind → Option Text
  claimed_domain (custom domain_id owner_id) = some domain_id
  claimed_domain (claim domain_id) = some domain_id
  claimed_domain _ = none

  abbrev is_claim : HostKind → Bool
  is_claim (claim domain_id) = true
  is_claim _ = false

  abbrev is_refused : HostKind → Bool
  is_refused refused = true
  is_refused _ = false

  -- The paths that a host answers with no share: the probe, robots.txt and the tracker.
  unfoldable pub host_paths : HostKind → Step (Unit {0})
  host_paths host =
      if same request.url.pathname (codes "/.well-known/htmlradar-domain-check")
      then (do
        domain_id ← require (claimed_domain host) not_found
        unless (is_read request.method) not_found
        answer (domain_check domain_id))
      else if same request.url.pathname (codes "/robots.txt")
      then answer robots
      else if is_claim host
      then answer not_found
      else if same request.url.pathname (codes "/v1/tracker.js")
      then answer tracker
      else next tt

  unfoldable pub by_route : HostKind → Route → Step Response
  by_route host (preview_of doc_id) = preview_route host doc_id
  by_route host (file_of slug id) = download_route host slug id
  by_route host (share_of slug sub) = share_route host slug sub
  by_route host no_match = answer no_route

  unfoldable pub handle_request : Outcome
  handle_request = finish do
    elim (moved env request.url request.method) [
      | none ↦ next tt
      | some url ↦ answer (redirect 301 (to_url url))
    ]
    host ← read (resolve_host w env request.url.hostname)
    unless (not (is_refused host)) not_found
    host_paths host
    by_route host (route_of request.url.pathname)

-- The content security policy that leaves the worker with a response: HTMLRadar's own page has its
-- own, the sandbox alone, or the whole policy of a response that carries customer HTML.
pub data Policy : Type 0 where
  own_page sandbox : Policy
  document_policy : (framed : Bool) → Policy

pub record Sent : Type 0 where
  pub response : Response
  pub no_index : Bool
  pub version : Option Text
  pub policy : Policy

-- The policy that a response sets for itself before `withNoIndex`: `documentCsp`, or the marker of
-- the trust wrapper.
abbrev policy_of : Response → Policy
policy_of (wrapper page) = own_page
policy_of (served doc) = document_policy doc.framed
policy_of (raw_document doc) = document_policy false
policy_of _ = sandbox

abbrev shows_version : Response → Bool
shows_version (domain_check domain_id) = false
shows_version _ = true

unfoldable pub with_no_index : Env → Response → Sent
with_no_index env r = record {
  response = r;
  no_index = true;
  version = if shows_version r then some (or_else env.git_sha (codes "dev")) else none;
  policy = policy_of r;
}

-- `fetch`: an upstream failure is a page that asks to try again; any other exception is a 500.
unfoldable pub sent_by : Env → Outcome → Option Sent
sent_by env (replied r) = some (with_no_index env r.response)
sent_by env upstream_error = some (with_no_index env source_unreachable)
sent_by env crashed = none

unfoldable pub fetch : World → Env → Request → Option Sent
unfolding sent_by with_no_index
fetch w env request = sent_by env (handle_request w env request)
