-- ===== src/Proxy/Gates.antt =====
-- index.ts: the allow-list and the four submissions that a recipient makes.
pub mod Allowed
pub mod Entry
use Prim.Native.Char.{code}
use htmlradar.Common.{
  ℕ, ◌/◌, ◌≡◌, refl, Text, codes, Option, none, some, List, [], ◌∷◌, ◌++◌, Bool, true, false, not,
  ◌&&◌, ◌||◌, length, leb, ◌==◌, if◌then◌else◌, same, includes, split, trim, to_lower, is_space,
  take, or_else,
}
use htmlradar.Proxy.Auth.{
  issue_auth_cookie, issue_email_cookie, issue_opt_out_token, verify_opt_out_token, opt_out_cookie,
  opt_out_clear_cookie, hash_reporter_address,
}
use htmlradar.Proxy.World.{
  Env, Share, Request, Choice, opt_out, opt_in, GateNote, no_note, password_required,
  too_many_attempts, incorrect_password, email_required, invalid_email, not_shared, form_broken,
  choose_reason, several_reports, did_not_send, Response, redirect, see_other, opt_out_confirm,
  password_form, email_gate_form, report_form, report_sent, Verdict, ok, bad, rate_limited, Effect,
  log_password, log_email, report_abuse, World, Outcome, replied, crashed, Reply, Step, stop, next,
  answer,
}

-- `split('@')[1]`
unfoldable pub domain_part : List Text → Option Text
domain_part (local ∷ domain ∷ rest) = some domain
domain_part _ = none

-- A list that is there and not empty.
abbrev pub listed : Option (List Text) → List Text
listed none = []
listed (some ts) = ts

abbrev pub is_empty : List Text → Bool
is_empty [] = true
is_empty (t ∷ ts) = false

unfoldable pub is_email_allowed : Share → Text → Bool
unfolding domain_part
is_email_allowed share email =
    let emails = listed share.allowed_emails in
    let domains = listed share.allowed_email_domains in
    if is_empty emails && is_empty domains
    then true
    else includes emails email || includes domains (or_else (domain_part (split b'@' email)) [])

-- `EMAIL_REGEX`, `^[^\s@]+@[^\s@]+\.[^\s@]+$`: one `@`, no white space, and behind the `@` a dot
-- that is neither the first nor the last character.
abbrev no_space : Text → Bool
no_space [] = true
no_space (c ∷ s) = not (is_space c) && no_space s

abbrev inner_dot : Text → Bool
inner_dot [] = false
inner_dot (c ∷ []) = false
inner_dot (c ∷ d ∷ s) = c == b'.' || inner_dot (d ∷ s)

abbrev domain_shape : Text → Bool
domain_shape [] = false
domain_shape (c ∷ s) = inner_dot s

address_shape : List Text → Bool
address_shape ((c ∷ local) ∷ domain ∷ []) = domain_shape domain
address_shape _ = false

unfoldable pub is_email_format : Text → Bool
unfolding address_shape
is_email_format s = no_space s && address_shape (split b'@' s)

abbrev pub now_seconds : World → ℕ
now_seconds w = w.now_ms / 1000

abbrev pub done : Response → List Effect → Outcome
done r effects = replied (record { response = r; effects = effects })

abbrev pub choice_text : Choice → Text
choice_text opt_out = codes "1"
choice_text opt_in = codes "0"

unfoldable pub choice_of : Option Text → Option Choice
choice_of none = none
choice_of (some s) =
    if same s (codes "1") then some opt_out else if same s (codes "0") then some opt_in else none

module _ (w : World) (env : Env) where
  -- Nothing when this POST is no opt-out, so that whatever else was posted goes on.
  opt_out_submit : Option Choice → Option Text → Text → Text → Step (Unit {0})
  opt_out_submit none token slug hostname = next tt
  opt_out_submit (some choice) none slug hostname = next tt
  opt_out_submit (some choice) (some token) slug hostname =
      if verify_opt_out_token w.platform token (choice_text choice) slug hostname env.session_secret
        (now_seconds w)
      then answer (
          see_other slug (elim choice [ opt_out ↦ opt_out_cookie | opt_in ↦ opt_out_clear_cookie ]))
      else answer (
          opt_out_confirm slug choice
            (issue_opt_out_token w.platform (choice_text choice) slug hostname env.session_secret
              (now_seconds w))
            400)

  unfoldable pub handle_opt_out_submit : Request → Text → Text → Step (Unit {0})
  unfolding opt_out_submit choice_of
  handle_opt_out_submit request slug hostname = elim request.form [
    | none ↦ next tt
    | some form ↦
        opt_out_submit (choice_of (form (codes "optout"))) (form (codes "token")) slug hostname
  ]

  password_outcome : Share → Verdict → Outcome
  password_outcome share ok =
      done
        (see_other share.slug
          (issue_auth_cookie w.platform share.slug env.session_secret (now_seconds w)))
        (log_password share.id ok ∷ [])
  password_outcome share rate_limited =
      done (password_form share.slug too_many_attempts) (log_password share.id rate_limited ∷ [])
  password_outcome share bad =
      done (password_form share.slug incorrect_password) (log_password share.id bad ∷ [])

  password_typed : Share → Option Text → Outcome
  unfolding password_outcome
  password_typed share none = done (password_form share.slug password_required) []
  password_typed share (some []) = done (password_form share.slug password_required) []
  password_typed share (some (c ∷ s)) =
      password_outcome share (w.verify_share_password share.slug (c ∷ s))

  unfoldable pub handle_password_submit : Request → Share → Outcome
  unfolding password_typed
  handle_password_submit request share = elim request.form [
    | none ↦ crashed
    | some form ↦ password_typed share (form (codes "password"))
  ]

  email_checked : Share → Text → Outcome
  email_checked share email =
      let domain = domain_part (split b'@' email) in
      if not (is_email_format email)
      then done (email_gate_form share.slug invalid_email)
          (log_email share.id invalid_email none ∷ [])
      else if not (is_email_allowed share email)
      then done (email_gate_form share.slug not_shared) (log_email share.id not_shared domain ∷ [])
      else done
          (see_other share.slug
            (issue_email_cookie w.platform share.slug email env.session_secret (now_seconds w)))
          (log_email share.id no_note domain ∷ [])

  email_typed : Share → Option Text → Outcome
  unfolding email_checked is_email_allowed is_email_format
  email_typed share none = done (email_gate_form share.slug email_required) []
  email_typed share (some raw) = email_checked share (to_lower (trim raw))

  unfoldable pub handle_email_submit : Request → Share → Outcome
  unfolding email_typed
  handle_email_submit request share = elim request.form [
    | none ↦ crashed
    | some form ↦ email_typed share (form (codes "email"))
  ]

  -- `REPORT_REASONS`
  abbrev report_reasons : List Text
  report_reasons = codes "phishing" ∷ codes "malware" ∷ codes "personal_data" ∷ codes "other" ∷ []

  -- `rawNote.trim().slice(0, NOTE_MAX_LENGTH) || null`
  report_note : Option Text → Option Text
  report_note none = none
  report_note (some raw) = elim (take 500 (trim raw)) [ [] ↦ none | c ∷ s ↦ some (c ∷ s) ]

  report_outcome : Share → Text → Option Text → Text → Verdict → Outcome
  report_outcome share reason note ip_hash verdict =
      let sent = report_abuse share.slug reason note ip_hash ∷ [] in
      elim verdict [
        | ok ↦ done report_sent sent
        | rate_limited ↦ done (report_form share.slug several_reports) sent
        | bad ↦ done (report_form share.slug did_not_send) sent
      ]

  report_typed : Request → Share → (Text → Option Text) → Option Text → Outcome
  unfolding report_outcome report_note
  report_typed request share form none = done (report_form share.slug choose_reason) []
  report_typed request share form (some reason) =
      if not (includes report_reasons reason)
      then done (report_form share.slug choose_reason) []
      else report_outcome share reason (report_note (form (codes "note")))
          (hash_reporter_address w.platform (or_else request.connecting_ip []) env.session_secret)
          (w.report_verdict share.slug)

  unfoldable pub handle_report_submit : Request → Share → Outcome
  unfolding report_typed
  handle_report_submit request share = elim request.form [
    | none ↦ done (report_form share.slug form_broken) []
    | some form ↦ report_typed request share form (form (codes "reason"))
  ]
