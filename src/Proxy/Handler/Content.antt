-- ===== src/Proxy/Handler/Content.antt =====
-- What a request has shown by the time that `handleRequest` answers it with customer content.
use htmlradar.Common.{
  if◌then◌else◌, ◌≡◌, refl, Text, codes, Bool, true, false, not, ◌&&◌, Option, none, some, ◌⊎◌, inl,
  inr, arith, same, is_some, Bool-cases, Option-cases, ap, same_sound,
}
use htmlradar.Proxy.Auth.{
  verify_auth_cookie, verify_email_cookie, verify_print_grant, VerifiedEmail,
}
use htmlradar.Proxy.World.{
  World, Env, Request, Share, Response, Reply, not_found, next, ◌>>◌, unless, finish, replied,
  not_found,
}
use htmlradar.Proxy.Routes.{Subroute, auth, email, report, frame, print}
use htmlradar.Proxy.Gates.{is_email_allowed, now_seconds}
use htmlradar.Proxy.Handler.{
  is_framed, is_disabled, is_owner_preview, password_gate, email_gate, disabled_gate, side_routes,
  submissions, wrapper_stage, serve_document, share_stages,
}
use htmlradar.Proxy.Handler.Steps.{passed, unless_quiet, unless-eq-next}
use htmlradar.Proxy.Handler.Quiet.{
  is_content, opt_out_stage_quiet, side_routes_quiet, submissions_quiet, disabled_gate_quiet,
  password_gate_quiet, email_gate_quiet,
}

says :
    (o : Option Text) (t : Text) → elim o [ none ↦ false | some s ↦ same s t ] ≡ true → o ≡ some t
says none t e = cc
says (some s) t e = ap some (same_sound s t e)

module _ (w : World) (env : Env) (request : Request) where
  -- The password gate: none is asked for, or the cookie of this share verifies.
  abbrev pub PasswordPassed : Share → Text → Type 0
  PasswordPassed share slug =
      (share.require_password ≡ false)
      ⊎ (is_some
            (verify_auth_cookie w.platform request.cookie slug env.session_secret (now_seconds w))
          ≡ true)

  -- The email gate: none is asked for, or the cookie proves an address that the share admits now.
  abbrev pub EmailPassed : Share → Text → Option Text → Type 0
  EmailPassed share slug verified =
      ((share.require_email ≡ false) × (verified ≡ none))
      ⊎ ((found : VerifiedEmail) × (verify_email_cookie w.platform request.cookie slug
              env.session_secret (now_seconds w)
            ≡ some found)
          × (is_email_allowed share found.email ≡ true)
          × (verified ≡ some found.email))

  -- A reader who is let in: the share is on, and both gates are passed.
  abbrev pub Admitted : Share → Text → Option Text → Type 0
  Admitted share slug verified =
      (is_disabled w share ≡ false) × PasswordPassed share slug × EmailPassed share slug verified

  -- How a subroute may be reached: the frame by an iframe, the print copy with a grant.
  abbrev pub SidePassed : Text → Option Subroute → Type 0
  SidePassed slug none = Unit
  SidePassed slug (some frame) = request.sec_fetch_dest ≡ some (codes "iframe")
  SidePassed slug (some print) =
      verify_print_grant w.platform (request.url.query (codes "g")) slug request.url.hostname
        request.cookie env.session_secret (now_seconds w)
      ≡ true
  SidePassed slug (some _) = ⊥

  pub password_gate_passed :
      (share : Share) (slug : Text) (preview : Bool) (r : Response) {u : Unit {0}}
      → password_gate w env request share slug preview r ≡ next u
      → (preview ≡ true) ⊎ PasswordPassed share slug
  unfolding password_gate
  password_gate_passed share slug true r e = inl refl
  password_gate_passed share slug false r e = elim (Bool-cases share.require_password) [
    | inr h ↦ inr (inl h)
    | inl h ↦ inr (inr (unless-eq-next _ r (ground (arith, e, h))))
  ]

  pub email_gate_passed :
      (share : Share) (slug : Text) (preview : Bool) (r s : Response) {v : Option Text}
      → email_gate w env request share slug preview r s ≡ next v
      → ((preview ≡ true) × (v ≡ none)) ⊎ ((preview ≡ false) × EmailPassed share slug v)
  unfolding email_gate
  email_gate_passed share slug true r s {v} e = inl (refl, ground (arith, e))
  email_gate_passed share slug false r s {v} e = elim (Bool-cases share.require_email) [
    | inr h ↦ inr (refl, inl (h, ground (arith, e, h)))
    | inl h ↦
        elim (Option-cases
          (verify_email_cookie w.platform request.cookie slug env.session_secret (now_seconds w))) [
            | inl lost ↦ absurd (let f : ⊥ = ground (arith, e, h, lost) in f)
            | inr (found, got_it) ↦ elim (Bool-cases (is_email_allowed share found.email)) [
              | inr k ↦ absurd (let f : ⊥ = ground (arith, e, h, got_it, k) in f)
              | inl k ↦ inr (refl, inr (found, got_it, k, ground (arith, e, h, got_it, k)))
            ]
          ]
  ]

  pub disabled_gate_passed :
      (share : Share) (preview : Bool) {u : Unit {0}}
      → disabled_gate w env request share preview ≡ next u
      → (preview ≡ true) ⊎ (is_disabled w share ≡ false)
  unfolding disabled_gate is_disabled
  disabled_gate_passed share preview e = ground arith

  pub side_passed :
      (share : Share) (slug : Text) (sub : Option Subroute) {u v : Unit {0}}
      → side_routes w env request share slug sub ≡ next u
      → submissions w env request share sub ≡ next v
      → SidePassed slug sub
  unfolding side_routes submissions
  side_passed share slug none e k = tt
  side_passed share slug (some frame) e k = says _ _ (unless-eq-next _ _ e)
  side_passed share slug (some print) e k = unless-eq-next _ _ e
  side_passed share slug (some report) e k = ground arith
  side_passed share slug (some auth) e k = ground arith
  side_passed share slug (some email) e k = ground arith

  -- What the stages behind the lookup have established when content follows.
  abbrev pub Cleared : Share → Text → Option Subroute → Option Text → Type 0
  Cleared share slug sub verified =
      SidePassed slug sub
      × ((is_framed sub ≡ false) ⊎ (is_disabled w share ≡ false))
      × (((is_owner_preview w env request slug ≡ true) × (verified ≡ none))
          ⊎ Admitted share slug verified)

  gather :
      (share : Share) (slug : Text) (preview : Bool) (verified : Option Text)
      → (preview ≡ true) ⊎ (is_disabled w share ≡ false)
      → (preview ≡ true) ⊎ PasswordPassed share slug
      → ((preview ≡ true) × (verified ≡ none))
        ⊎ ((preview ≡ false) × EmailPassed share slug verified)
      → ((preview ≡ true) × (verified ≡ none)) ⊎ Admitted share slug verified
  gather share slug preview verified a b (inl c) = inl c
  gather share slug preview verified (inr a) (inr b) (inr c) = inr (a, b, c.1)
  gather share slug preview verified (inl a) b (inr c) = cc
  gather share slug preview verified (inr a) (inl b) (inr c) = cc

  closed_quiet :
      (sub : Option Subroute) (r : Response)
      → is_content r ≡ false
      → is_content (if is_framed sub then not_found else r) ≡ false
  closed_quiet sub r h = ground arith

  framed_on : (a b : Bool) → not (a && b) ≡ true → (a ≡ false) ⊎ (b ≡ false)
  framed_on a b e = ground arith

  pub share_stages-Cleared :
      (share : Share) (slug : Text) (sub : Option Subroute) {r : Reply}
      → finish (share_stages w env request share slug sub) ≡ replied r
      → is_content r.response ≡ true
      → (verified : Option Text) × Cleared share slug sub verified
        × (finish (
              wrapper_stage w env request share slug sub (is_owner_preview w env request slug)
              >> serve_document w env request share sub
                  (is_owner_preview w env request slug)
                  verified)
            ≡ replied r)
  unfolding share_stages
  share_stages-Cleared share slug sub e h =
      let (_, _, e1) = passed is_content _ _ (opt_out_stage_quiet w env request slug sub) e h in
      let (_, side, e2) =
        passed is_content _ _ (side_routes_quiet w env request share slug sub) e1 h in
      let (_, on, e3) =
        passed is_content (unless (not (is_framed sub && is_disabled w share)) not_found) _
          (unless_quiet is_content _ not_found refl) e2 h in
      let (_, off, e4) = passed is_content _ _ (disabled_gate_quiet w env request share _) e3 h in
      let (_, sent, e5) = passed is_content _ _ (submissions_quiet w env request share sub) e4 h in
      let (_, pass, e6) =
        passed is_content _ _
          (password_gate_quiet w env request share slug _ _ (closed_quiet sub _ refl)) e5 h in
      let (verified, mail, e7) =
        passed is_content _ _
          (email_gate_quiet w env request share slug _ _ _ (closed_quiet sub _ refl)
            (closed_quiet sub _ refl))
          e6 h in
      (
        verified,
        (
          side_passed share slug sub side sent,
          framed_on _ _ (unless-eq-next _ _ on),
          gather share slug _ verified (disabled_gate_passed share _ off)
              (password_gate_passed share slug _ _ pass) (email_gate_passed share slug _ _ _ mail),
        ),
        e7,
      )
