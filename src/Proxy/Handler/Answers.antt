-- ===== src/Proxy/Handler/Answers.antt =====
-- What it takes for `handleRequest` to answer a request with customer content, from the first stage
-- to the last.
use htmlradar.Common.{◌≡◌, refl, Text, Bool, true, false, not, ◌&&◌, Option, none, some, ◌⊎◌, arith}
use htmlradar.Proxy.World.{
  World, Env, Request, Document, Attachment, Response, Reply, Served, Wrapper, wrapper, served,
  raw_document, file, not_found, Step, next, answer, unless, read, require, finish, replied, got,
  redirect, to_url, Url,
}
use htmlradar.Proxy.Hosts.{HostKind, wrapper_enabled, resolve_host}
use htmlradar.Proxy.Routes.{Subroute, Route, route_of, share_of, file_of, preview_of, no_match}
use htmlradar.Proxy.Handler.{is_framed, share_route, by_route, moved, handle_request, is_refused}
use htmlradar.Proxy.Handler.Steps.{
  passed, unless_quiet, unless-eq-next, read_quiet, read-eq-next, require_quiet, stops_in,
}
use htmlradar.Proxy.Handler.Quiet.{is_content, stored_host_quiet, host_paths_quiet}
use htmlradar.Proxy.Handler.Content.{share_stages-Cleared}
use htmlradar.Proxy.Handler.Replies.{
  IsServed, IsWrapped, IsDownload, IsPreview, Earned, preview-Earned, download-Earned, share-Earned,
  wrapper-IsShown, IsFound-here,
}

module _ (w : World) (env : Env) (request : Request) where
  framed_enabled : (a b : Bool) → not (a && not b) ≡ true → (a ≡ false) ⊎ (b ≡ true)
  framed_enabled a b e = ground arith

  share_route-Earned :
      (host : HostKind) (slug : Text) (sub : Option Subroute) {r : Reply}
      → route_of request.url.pathname ≡ share_of slug sub
      → finish (share_route w env request host slug sub) ≡ replied r
      → is_content r.response ≡ true
      → Earned w env request host r.response
  unfolding share_route
  share_route-Earned host slug sub {r} route e h =
      let (_, enabled, e1) =
        passed is_content (unless (not (is_framed sub && not (wrapper_enabled slug env))) not_found)
          _ (unless_quiet is_content _ not_found refl) e h in
      let (found, looked, e2) =
        passed is_content (read (w.get_share_by_slug slug)) _ (read_quiet is_content _) e1 h in
      let (share, known, e3) =
        passed is_content (require found not_found) _
          (require_quiet is_content found not_found refl) e2 h in
      let (_, at_host, e4) =
        passed is_content _ _ (stored_host_quiet w env request host share) e3 h in
      let (verified, cleared, e5) = share_stages-Cleared w env request share slug sub e4 h in
      share-Earned w env request host slug sub share verified r.response route
        (IsFound-here w env request host slug share looked known at_host)
        (framed_enabled _ _ (unless-eq-next _ _ enabled)) cleared h
        (wrapper-IsShown w env request slug sub _ share verified e5 h)

  route-Earned :
      (host : HostKind) (route : Route) {r : Reply}
      → route_of request.url.pathname ≡ route
      → finish (by_route w env request host route) ≡ replied r
      → is_content r.response ≡ true
      → Earned w env request host r.response
  unfolding by_route
  route-Earned host (preview_of doc_id) at e h = preview-Earned w env request host doc_id at e h
  route-Earned host (file_of slug id) at e h = download-Earned w env request host slug id at e h
  route-Earned host (share_of slug sub) at e h = share_route-Earned host slug sub at e h
  route-Earned host no_match at e h = cc

  moved_quiet :
      (o : Option Url)
      → stops_in is_content (elim o as (λ _. Step (Unit {0})) [
        | none ↦ next tt
        | some url ↦ answer (redirect 301 (to_url url))
      ])
        ≡ false
  moved_quiet none = refl
  moved_quiet (some url) = refl

  handle_request-Earned :
      {r : Reply}
      → handle_request w env request ≡ replied r
      → is_content r.response ≡ true
      → (host : HostKind) × (resolve_host w env request.url.hostname ≡ got host)
        × Earned w env request host r.response
  unfolding handle_request
  handle_request-Earned {r} e h =
      let (_, _, e1) =
        passed is_content _ _ (moved_quiet (moved env request.url request.method)) e h in
      let (host, resolved, e2) =
        passed is_content (read (resolve_host w env request.url.hostname)) _
          (read_quiet is_content _) e1 h in
      let (_, _, e3) =
        passed is_content (unless (not (is_refused w env request host)) not_found) _
          (unless_quiet is_content _ not_found refl) e2 h in
      let (_, _, e4) = passed is_content _ _ (host_paths_quiet w env request host) e3 h in
      (host, read-eq-next _ resolved, route-Earned host _ refl e4 h)

turned :
    (w : World) (env : Env) (request : Request) (host : HostKind) {r s : Response}
    → r ≡ s
    → Earned w env request host r
    → Earned w env request host s
turned w env request host e earned = rw (← e) earned

-- A document that is served belongs to the share that the request's slug names, the host may serve
-- that share, and either the sender's own preview token verifies for the slug, or the share is
-- neither revoked nor expired and each gate it asks for is passed, the email by an address that it
-- admits. A framed copy is of a share that is on, for an iframe or with a print grant. Reads are
-- tracked unless the page is a print copy, a preview, or for a reader who opted out.
pub handle_request-served :
    (w : World) (env : Env) (request : Request) (r : Reply) (d : Served)
    → handle_request w env request ≡ replied r
    → r.response ≡ served d
    → (host : HostKind) × (resolve_host w env request.url.hostname ≡ got host)
      × IsServed w env request host d
handle_request-served w env request r d e h =
    let (host, at, earned) = handle_request-Earned w env request e (rw h refl) in
    (host, at, turned w env request host h earned)

-- The trust wrapper is sent only where wrappers are enabled, for a share that the host may serve and
-- that is neither revoked nor expired, to a reader who has passed each gate that the share asks for.
pub handle_request-wrapper :
    (w : World) (env : Env) (request : Request) (r : Reply) (page : Wrapper)
    → handle_request w env request ≡ replied r
    → r.response ≡ wrapper page
    → (host : HostKind) × (resolve_host w env request.url.hostname ≡ got host)
      × IsWrapped w env request host page
handle_request-wrapper w env request r page e h =
    let (host, at, earned) = handle_request-Earned w env request e (rw h refl) in
    (host, at, turned w env request host h earned)

-- An attachment is sent only with a share that the host may serve, whose document it is attached to,
-- that is neither revoked nor expired, and each of whose gates is passed: a preview token opens none.
pub handle_request-file :
    (w : World) (env : Env) (request : Request) (r : Reply) (item : Attachment)
    → handle_request w env request ≡ replied r
    → r.response ≡ file item
    → (host : HostKind) × (resolve_host w env request.url.hostname ≡ got host)
      × IsDownload w env request host item
handle_request-file w env request r item e h =
    let (host, at, earned) = handle_request-Earned w env request e (rw h refl) in
    (host, at, turned w env request host h earned)

-- A document is sent with no share only on the apex, for a preview token that verifies for this very
-- document, which is not deleted.
pub handle_request-raw_document :
    (w : World) (env : Env) (request : Request) (r : Reply) (doc : Document)
    → handle_request w env request ≡ replied r
    → r.response ≡ raw_document doc
    → (host : HostKind) × (resolve_host w env request.url.hostname ≡ got host)
      × IsPreview w env request host doc
handle_request-raw_document w env request r doc e h =
    let (host, at, earned) = handle_request-Earned w env request e (rw h refl) in
    (host, at, turned w env request host h earned)
