-- ===== src/Proxy/Handler/Replies.antt =====
-- Each kind of customer content that leaves `handleRequest`, and what it takes to be sent it.
use htmlradar.Common.{
  ◌≡◌, refl, Text, codes, Bool, true, false, not, ◌&&◌, Option, none, some, ◌⊎◌, inl, inr, arith,
  same, is_some, same_sound, if◌then◌else◌,
}
use htmlradar.Proxy.Auth.{verify_owner_doc_preview_token, is_tracking_opted_out}
use htmlradar.Proxy.World.{
  World, Env, Request, Share, Document, Attachment, Response, Reply, Served, Wrapper, wrapper,
  served, raw_document, file, not_found, Step, next, ◌>>=◌, ◌>>◌, answer, unless, read, require,
  finish, replied, got, method_not_allowed,
}
use htmlradar.Proxy.Hosts.{HostKind, apex, wrapper_enabled}
use htmlradar.Proxy.Hosts.Stored.{MayServe, enforce_stored_host_iff}
use htmlradar.Proxy.Routes.{Subroute, frame, print, route_of, share_of, file_of, preview_of}
use htmlradar.Proxy.Gates.{now_seconds}
use htmlradar.Proxy.Handler.{
  is_framed, is_frame, is_print, is_disabled, is_owner_preview, wrapper_stage, wrapper_for,
  serve_document, open_document, stored_host, download_route, preview_route, is_get,
}
use htmlradar.Proxy.Handler.Steps.{
  passed, unless_quiet, unless-eq-next, read_quiet, read-eq-next, require_quiet, require-eq-next,
  replied_response, stops_in,
}
use htmlradar.Proxy.Handler.Quiet.{
  is_content, stored_host_quiet, password_gate_quiet, email_gate_quiet,
}
use htmlradar.Proxy.Handler.Content.{
  Cleared, Admitted, PasswordPassed, EmailPassed, SidePassed, password_gate_passed,
  email_gate_passed,
}

module _ (w : World) (env : Env) (request : Request) where
  -- The stored document is there, not deleted, and its HTML was read.
  abbrev pub IsOpen : Text → Document → Type 0
  IsOpen id doc =
      (w.get_document id ≡ got (some doc)) × (doc.deleted_at ≡ none) × (w.has_html doc ≡ true)

  -- The request's host may serve the share that its slug names.
  abbrev pub IsFound : HostKind → Text → Share → Type 0
  IsFound host slug share = (w.get_share_by_slug slug ≡ got (some share)) × MayServe env host share

  abbrev pub IsServed : HostKind → Served → Type 0
  IsServed host d =
      (slug : Text) × (sub : Option Subroute) × (route_of request.url.pathname ≡ share_of slug sub)
      × IsFound host slug d.share
      × Cleared w env request d.share slug sub d.email
      × IsOpen d.share.document_id d.document
      × (d.framed ≡ is_frame sub)
      × (d.tracking_enabled
          ≡ not (is_print sub)
            && not (is_owner_preview w env request slug)
            && not (is_tracking_opted_out request.cookie))
      × ((is_framed sub ≡ wrapper_enabled slug env) ⊎ (is_owner_preview w env request slug ≡ true))

  abbrev pub IsWrapped : HostKind → Wrapper → Type 0
  IsWrapped host page =
      (share : Share) × (verified : Option Text) × (route_of request.url.pathname
        ≡ share_of page.slug none)
      × IsFound host page.slug share
      × Admitted w env request share page.slug verified
      × (wrapper_enabled page.slug env ≡ true)

  abbrev pub IsDownload : HostKind → Attachment → Type 0
  IsDownload host item =
      (slug : Text) × (id : Text) × (share : Share) × (verified : Option Text) × (route_of
          request.url.pathname
        ≡ file_of slug id)
      × IsFound host slug share
      × Admitted w env request share slug verified
      × (w.get_attachment id ≡ some item)
      × (item.document_id ≡ share.document_id)

  abbrev pub IsPreview : HostKind → Document → Type 0
  IsPreview host doc =
      (doc_id : Text) × (route_of request.url.pathname ≡ preview_of doc_id)
      × (host ≡ apex)
      × (verify_owner_doc_preview_token w.platform (request.url.query (codes "owner_doc_preview"))
            doc_id env.session_secret (now_seconds w)
          ≡ true)
      × IsOpen doc_id doc

  -- Every response that is content has its own conditions; the others have none.
  abbrev pub Earned : HostKind → Response → Type 0
  Earned host (served d) = IsServed host d
  Earned host (wrapper page) = IsWrapped host page
  Earned host (raw_document doc) = IsPreview host doc
  Earned host (file item) = IsDownload host item
  Earned host _ = Unit

  open_document-IsOpen :
      (id : Text) (k : Document → Step Response) {r : Reply}
      → finish (open_document w env request id >>= k) ≡ replied r
      → is_content r.response ≡ true
      → (doc : Document) × IsOpen id doc × (finish (k doc) ≡ replied r)
  unfolding open_document
  open_document-IsOpen id k e h =
      let (doc, here, rest) = passed is_content (open_document w env request id) k quiet e h in
      (doc, opened doc here, rest)
    where
      quiet : stops_in is_content (open_document w env request id) ≡ false
      quiet = ground arith

      opened : (doc : Document) → open_document w env request id ≡ next doc → IsOpen id doc
      opened doc here = ground arith

  host_next :
      (host : HostKind) (share : Share) {u : Unit {0}}
      → stored_host w env request host share ≡ next u
      → MayServe env host share
  unfolding stored_host
  host_next host share e =
      (enforce_stored_host_iff env host share request.url request.method).0 (ground arith)

  pub IsFound-here :
      (host : HostKind) (slug : Text) (share : Share) {found : Option Share} {u : Unit {0}}
      → read (w.get_share_by_slug slug) ≡ next found
      → require found not_found ≡ next share
      → stored_host w env request host share ≡ next u
      → IsFound host slug share
  IsFound-here host slug share {found} looked known at_host = (
    let e : found ≡ some share = require-eq-next found not_found known in
        rw (← e) (read-eq-next _ looked),
    host_next host share at_host,
  )

  apex_only : (host : HostKind) → elim host [ apex ↦ true | _ ↦ false ] ≡ true → host ≡ apex
  apex_only host e = ground arith

  pub preview-Earned :
      (host : HostKind) (doc_id : Text) {r : Reply}
      → route_of request.url.pathname ≡ preview_of doc_id
      → finish (preview_route w env request host doc_id) ≡ replied r
      → is_content r.response ≡ true
      → Earned host r.response
  unfolding preview_route
  preview-Earned host doc_id {r} route e h =
      let (_, here, e1) =
        passed is_content (unless (elim host [ apex ↦ true | _ ↦ false ]) not_found) _
          (unless_quiet is_content _ not_found refl) e h in
      let (_, token, e2) =
        passed is_content _ _
          (unless_quiet is_content
            (verify_owner_doc_preview_token w.platform
              (request.url.query (codes "owner_doc_preview")) doc_id env.session_secret
              (now_seconds w))
            not_found refl)
          e1 h in
      let (doc, shown, e3) = open_document-IsOpen doc_id _ e2 h in
      let same_reply : r.response ≡ raw_document doc = replied_response e3 in
      rw same_reply
        (doc_id, route, apex_only host (unless-eq-next _ _ here), unless-eq-next _ _ token, shown)

  pub download-Earned :
      (host : HostKind) (slug id : Text) {r : Reply}
      → route_of request.url.pathname ≡ file_of slug id
      → finish (download_route w env request host slug id) ≡ replied r
      → is_content r.response ≡ true
      → Earned host r.response
  unfolding download_route
  download-Earned host slug id {r} route e h =
      let (_, _, e1) =
        passed is_content (unless (is_get request.method) method_not_allowed) _
          (unless_quiet is_content _ method_not_allowed refl) e h in
      let (found, looked, e2) =
        passed is_content (read (w.get_share_by_slug slug)) _ (read_quiet is_content _) e1 h in
      let (share, known, e3) =
        passed is_content (require found not_found) _
          (require_quiet is_content found not_found refl) e2 h in
      let (_, at_host, e4) =
        passed is_content _ _ (stored_host_quiet w env request host share) e3 h in
      let (_, on, e5) =
        passed is_content (unless (not (is_disabled w share)) not_found) _
          (unless_quiet is_content _ not_found refl) e4 h in
      let (_, pass, e6) =
        passed is_content _ _ (password_gate_quiet w env request share slug false not_found refl) e5
          h in
      let (verified, mail, e7) =
        passed is_content _ _
          (email_gate_quiet w env request share slug false not_found not_found refl refl) e6 h in
      let (item, held, e8) =
        passed is_content (require (w.get_attachment id) not_found) _
          (require_quiet is_content _ not_found refl) e7 h in
      let (_, owned, e9) =
        passed is_content (unless (same item.document_id share.document_id) not_found) _
          (unless_quiet is_content _ not_found refl) e8 h in
      let (_, stored, e10) =
        passed is_content (unless (w.has_object item.r2_key) not_found) _
          (unless_quiet is_content _ not_found refl) e9 h in
      let same_reply : r.response ≡ file item = replied_response e10 in
      rw same_reply (
        slug,
        id,
        share,
        verified,
        route,
        IsFound-here host slug share looked known at_host,
        (
          is_off _ (unless-eq-next _ _ on),
          plain_password share slug (password_gate_passed w env request share slug false _ pass),
          plain_email share slug verified
              (email_gate_passed w env request share slug false _ _ mail),
        ),
        require-eq-next _ _ held,
        same_sound _ _ (unless-eq-next _ _ owned),
      )
    where
      is_off : (b : Bool) → not b ≡ true → b ≡ false
      is_off b e = ground arith

      plain_password :
          (share : Share) (slug : Text)
          → (false ≡ true) ⊎ PasswordPassed w env request share slug
          → PasswordPassed w env request share slug
      plain_password share slug (inl k) = cc
      plain_password share slug (inr k) = k

      plain_email :
          (share : Share) (slug : Text) (v : Option Text)
          → ((false ≡ true) × (v ≡ none))
            ⊎ ((false ≡ false) × EmailPassed w env request share slug v)
          → EmailPassed w env request share slug v
      plain_email share slug v (inl k) = cc
      plain_email share slug v (inr k) = k.1

  abbrev IsShown : Text → Option Subroute → Bool → Share → Option Text → Response → Type 0
  IsShown slug sub preview share verified (wrapper page) =
      (page.slug ≡ slug) × (sub ≡ none) × (preview ≡ false) × (wrapper_enabled slug env ≡ true)
  IsShown slug sub preview share verified (served d) =
      (d.share ≡ share)
      × (d.email ≡ verified)
      × IsOpen share.document_id d.document
      × (d.framed ≡ is_frame sub)
      × (d.tracking_enabled
          ≡ not (is_print sub) && not preview && not (is_tracking_opted_out request.cookie))
      × ((is_some sub ≡ true) ⊎ (preview ≡ true) ⊎ (wrapper_enabled slug env ≡ false))
  IsShown slug sub preview share verified _ = ⊥

  serve-IsShown :
      (slug : Text) (sub : Option Subroute) (preview : Bool) (share : Share)
      (verified : Option Text) {r : Reply}
      → (is_some sub ≡ true) ⊎ (preview ≡ true) ⊎ (wrapper_enabled slug env ≡ false)
      → finish (serve_document w env request share sub preview verified) ≡ replied r
      → is_content r.response ≡ true
      → IsShown slug sub preview share verified r.response
  unfolding serve_document
  serve-IsShown slug sub preview share verified {r} why e h =
      let (doc, shown, e1) = open_document-IsOpen share.document_id _ e h in
      rw (replied_response e1) (refl, refl, shown, refl, refl, why)

  pub wrapper-IsShown :
      (slug : Text) (sub : Option Subroute) (preview : Bool) (share : Share)
      (verified : Option Text) {r : Reply}
      → finish (
          wrapper_stage w env request share slug sub preview
          >> serve_document w env request share sub preview verified)
        ≡ replied r
      → is_content r.response ≡ true
      → IsShown slug sub preview share verified r.response
  unfolding wrapper_stage wrapper_for
  wrapper-IsShown slug (some s) preview share verified e h =
      serve-IsShown slug _ preview share verified (inl refl) e h
  wrapper-IsShown slug none true share verified e h =
      serve-IsShown slug none true share verified (inr (inl refl)) e h
  wrapper-IsShown slug none false share verified {r} e h =
      by_switch (wrapper_enabled slug env) refl e
    where
      page_slug : (wrapper_for w env request share slug).slug ≡ slug
      page_slug = ground arith

      by_switch :
          (b : Bool)
          → wrapper_enabled slug env ≡ b
          → finish (
              (if b then answer (wrapper (wrapper_for w env request share slug)) else next tt)
              >> serve_document w env request share none false verified)
            ≡ replied r
          → IsShown slug none false share verified r.response
      by_switch true k e1 = rw (replied_response e1) (page_slug, refl, refl, k)
      by_switch false k e1 = serve-IsShown slug none false share verified (inr (inr k)) e1 h

  -- The last stage's findings, with those of the stages before it.
  pub share-Earned :
      (host : HostKind) (slug : Text) (sub : Option Subroute) (share : Share)
      (verified : Option Text) (r : Response)
      → route_of request.url.pathname ≡ share_of slug sub
      → IsFound host slug share
      → (is_framed sub ≡ false) ⊎ (wrapper_enabled slug env ≡ true)
      → Cleared w env request share slug sub verified
      → is_content r ≡ true
      → IsShown slug sub (is_owner_preview w env request slug) share verified r
      → Earned host r
  share-Earned host slug sub share verified (wrapper page) route found framed (side, on, who) h
        (same_slug, same_sub, no_preview, enabled) =
      rw same_slug (share, verified, rw (← same_sub) route, found, reader who, enabled)
    where
      reader :
          ((is_owner_preview w env request slug ≡ true) × (verified ≡ none))
            ⊎ Admitted w env request share slug verified
          → Admitted w env request share slug verified
      reader (inl k) = cc
      reader (inr k) = k
  share-Earned host slug sub share verified (served d) route found framed (side, on, who) h
        (same_share, same_email, doc, fr, tr, why) =
      (
        slug,
        sub,
        route,
        rw same_share found,
        rw (same_share, same_email) (side, on, who),
        rw same_share doc,
        fr,
        tr,
        placed sub side framed why,
      )
    where
      placed :
          (s : Option Subroute)
          → SidePassed w env request slug s
          → (is_framed s ≡ false) ⊎ (wrapper_enabled slug env ≡ true)
          → (is_some s ≡ true)
            ⊎ (is_owner_preview w env request slug ≡ true)
            ⊎ (wrapper_enabled slug env ≡ false)
          → (is_framed s ≡ wrapper_enabled slug env) ⊎ (is_owner_preview w env request slug ≡ true)
      placed none k a b = ground arith
      placed (some frame) k a b = ground arith
      placed (some print) k a b = ground arith
      placed (some _) k a b = absurd k
  share-Earned host slug sub share verified _ route found framed cleared h shown = absurd shown
