-- ===== src/Proxy/Gates/Entry.antt =====
-- What a submission of a gate form has to show for the cookie that opens the gate.
use htmlradar.Common.{
  if◌then◌else◌, Option-cases, split, ◌≡◌, ◌≢◌, refl, Text, codes, List, [], ◌∷◌, Option, none,
  some, Bool, true, false, inl, inr, arith, trim, to_lower, not,
}
use htmlradar.Proxy.Auth.{SetCookie, issue_auth_cookie, issue_email_cookie}
use htmlradar.Proxy.World.{
  World, Env, Request, Share, Response, see_other, email_gate_form, invalid_email, not_shared,
  Verdict, ok, bad, rate_limited, Reply, replied, log_password, log_email, no_note, Effect,
}
use htmlradar.Proxy.Gates.{
  is_email_allowed, is_email_format, domain_part, handle_password_submit, handle_email_submit,
  now_seconds, password_typed, password_outcome, email_typed, email_checked, done,
}

reply_of :
    {x : Response} {es : List Effect} {r : Reply}
    → done x es ≡ replied r
    → (r.response ≡ x) × (r.effects ≡ es)
reply_of e = (cc, cc)

see_other_inj :
    {a b : Text} {c d : SetCookie} {x : Response}
    → x ≡ see_other a c
    → x ≡ see_other b d
    → (b ≡ a) × (d ≡ c)
see_other_inj e h = (cc, cc)

module _ (w : World) (env : Env) (request : Request) (share : Share) where
  abbrev pub Typed : Text → Text → Type 0
  Typed name value =
      (form : Text → Option Text) × (request.form ≡ some form) × (form name ≡ some value)

  -- The password's cookie is set on one condition: the database says that the typed password, which
  -- is not empty, is the share's.
  abbrev pub PasswordEntry : Reply → Text → SetCookie → Type 0
  PasswordEntry r slug set =
      (password : Text) × Typed (codes "password") password
      × (password ≢ [])
      × (w.verify_share_password share.slug password ≡ ok)
      × (slug ≡ share.slug)
      × (set ≡ issue_auth_cookie w.platform share.slug env.session_secret (now_seconds w))
      × (r.effects ≡ log_password share.id ok ∷ [])

  abbrev pub EmailEntry : Text → SetCookie → Type 0
  EmailEntry slug set =
      (raw : Text) × Typed (codes "email") raw
      × (is_email_format (to_lower (trim raw)) ≡ true)
      × (is_email_allowed share (to_lower (trim raw)) ≡ true)
      × (slug ≡ share.slug)
      × (set
          ≡ issue_email_cookie w.platform share.slug (to_lower (trim raw)) env.session_secret
              (now_seconds w))

  password_outcome_entry :
      (password : Text) (v : Verdict) {r : Reply} {slug : Text} {set : SetCookie}
      → password_outcome w env share v ≡ replied r
      → r.response ≡ see_other slug set
      → (v ≡ ok)
        × (slug ≡ share.slug)
        × (set ≡ issue_auth_cookie w.platform share.slug env.session_secret (now_seconds w))
        × (r.effects ≡ log_password share.id ok ∷ [])
  unfolding password_outcome
  password_outcome_entry password ok e h =
      let (here, done_here) = reply_of e in
      let (same_slug, same_set) = see_other_inj here h in (refl, same_slug, same_set, done_here)
  password_outcome_entry password bad e h = let (here, _) = reply_of e in cc
  password_outcome_entry password rate_limited e h = let (here, _) = reply_of e in cc

  password_entry :
      {r : Reply} {slug : Text} {set : SetCookie}
      → handle_password_submit w env request share ≡ replied r
      → r.response ≡ see_other slug set
      → PasswordEntry r slug set
  unfolding handle_password_submit password_typed
  password_entry {r} {slug} {set} e h = elim (Option-cases request.form) [
    | inl lost ↦ absurd (let f : ⊥ = ground (arith, e, lost) in f)
    | inr (form, at) ↦ typed form at (form (codes "password")) refl (rw at at e)
  ]
    where
      typed :
          (form : Text → Option Text)
          → request.form ≡ some form
          → (o : Option Text) → form (codes "password") ≡ o
          → password_typed w env share o ≡ replied r
          → PasswordEntry r slug set
      typed form at none f k = let (here, _) = reply_of k in cc
      typed form at (some []) f k = let (here, _) = reply_of k in cc
      typed form at (some (c ∷ s)) f k =
          let (good, same_slug, same_set, logged) = password_outcome_entry (c ∷ s) _ k h in
          (c ∷ s, (form, at, f), (λ e. cc), good, same_slug, same_set, logged)

  email_checked_entry :
      (address : Text) {r : Reply} {slug : Text} {set : SetCookie}
      → email_checked w env share address ≡ replied r
      → r.response ≡ see_other slug set
      → (is_email_format address ≡ true)
        × (is_email_allowed share address ≡ true)
        × (slug ≡ share.slug)
        × (set
            ≡ issue_email_cookie w.platform share.slug address env.session_secret (now_seconds w))
  unfolding email_checked
  email_checked_entry address {r} {slug} {set} e h =
      by (is_email_format address) (is_email_allowed share address) refl refl e
    where
      by :
          (a b : Bool)
          → is_email_format address ≡ a
          → is_email_allowed share address ≡ b
          → (if not a
              then done
                  (email_gate_form share.slug invalid_email)
                  (log_email share.id invalid_email none ∷ [])
              else if not b
              then done
                  (email_gate_form share.slug not_shared)
                  (log_email share.id not_shared (domain_part (split b'@' address)) ∷ [])
              else done
                  (see_other share.slug (
                    issue_email_cookie w.platform share.slug address env.session_secret
                      (now_seconds w)))
                  (log_email share.id no_note (domain_part (split b'@' address)) ∷ []))
            ≡ replied r
          → (is_email_format address ≡ true)
            × (is_email_allowed share address ≡ true)
            × (slug ≡ share.slug)
            × (set
                ≡ issue_email_cookie w.platform share.slug address env.session_secret
                    (now_seconds w))
      by true true f g k =
          let (here, _) = reply_of k in
          let (same_slug, same_set) = see_other_inj here h in (f, g, same_slug, same_set)
      by true false f g k = let (here, _) = reply_of k in cc
      by false b f g k = let (here, _) = reply_of k in cc

  email_entry :
      {r : Reply} {slug : Text} {set : SetCookie}
      → handle_email_submit w env request share ≡ replied r
      → r.response ≡ see_other slug set
      → EmailEntry slug set
  unfolding handle_email_submit email_typed
  email_entry {r} {slug} {set} e h = elim (Option-cases request.form) [
    | inl lost ↦ absurd (let f : ⊥ = ground (arith, e, lost) in f)
    | inr (form, at) ↦ typed form at (form (codes "email")) refl (rw at at e)
  ]
    where
      typed :
          (form : Text → Option Text)
          → request.form ≡ some form
          → (o : Option Text) → form (codes "email") ≡ o
          → email_typed w env share o ≡ replied r
          → EmailEntry slug set
      typed form at none f k = let (here, _) = reply_of k in cc
      typed form at (some raw) f k =
          let (shape, listed_here, same_slug, same_set) =
            email_checked_entry (to_lower (trim raw)) k h in
          (raw, (form, at, f), shape, listed_here, same_slug, same_set)

-- The password gate sets a cookie only for a form whose password, not empty, the database accepts
-- for the share: it is the share's own cookie, and the attempt is logged as a success.
pub handle_password_submit-see_other :
    (w : World) (env : Env) (request : Request) (share : Share) (r : Reply) (slug : Text)
    (set : SetCookie)
    → handle_password_submit w env request share ≡ replied r
    → r.response ≡ see_other slug set
    → PasswordEntry w env request share r slug set
handle_password_submit-see_other w env request share r slug set e h =
    password_entry w env request share e h

-- The email gate sets a cookie only for an address that, trimmed and in lower case, has the form of
-- one and is on the share's allow-list: it is the share's own cookie, over that address.
pub handle_email_submit-see_other :
    (w : World) (env : Env) (request : Request) (share : Share) (r : Reply) (slug : Text)
    (set : SetCookie)
    → handle_email_submit w env request share ≡ replied r
    → r.response ≡ see_other slug set
    → EmailEntry w env request share slug set
handle_email_submit-see_other w env request share r slug set e h =
    email_entry w env request share e h
