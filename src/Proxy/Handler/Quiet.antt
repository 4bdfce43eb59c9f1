-- ===== src/Proxy/Handler/Quiet.antt =====
-- The stages of `handleRequest` that never answer with customer content.
use htmlradar.Common.{◌≡◌, refl, Bool, true, false, Option, none, some, Text, arith}
use htmlradar.Proxy.World.{
  World, Env, Request, Share, Response, wrapper, served, raw_document, file,
}
use htmlradar.Proxy.Hosts.{HostKind, enforce_stored_host}
use htmlradar.Proxy.Routes.{Subroute, auth, email, report, frame, print}
use htmlradar.Proxy.Gates.{
  handle_opt_out_submit, handle_password_submit, handle_email_submit, handle_report_submit,
}
use htmlradar.Proxy.Handler.{
  opt_out_stage, side_routes, submissions, disabled_gate, stored_host, host_paths, password_gate,
  email_gate,
}
use htmlradar.Proxy.Handler.Steps.{ends_in, stops_in}

-- A response that carries what a customer wrote, or the frame round it.
abbrev pub is_content : Response → Bool
is_content (wrapper page) = true
is_content (served doc) = true
is_content (raw_document doc) = true
is_content (file item) = true
is_content _ = false

module _ (w : World) (env : Env) (request : Request) where
  report_quiet :
      (share : Share) → ends_in is_content (handle_report_submit w env request share) ≡ false
  unfolding handle_report_submit
  report_quiet share = ground arith

  password_quiet :
      (share : Share) → ends_in is_content (handle_password_submit w env request share) ≡ false
  unfolding handle_password_submit
  password_quiet share = ground arith

  email_quiet :
      (share : Share) → ends_in is_content (handle_email_submit w env request share) ≡ false
  unfolding handle_email_submit
  email_quiet share = ground arith

  pub opt_out_stage_quiet :
      (slug : Text) (sub : Option Subroute)
      → stops_in is_content (opt_out_stage w env request slug sub) ≡ false
  unfolding opt_out_stage handle_opt_out_submit
  opt_out_stage_quiet slug none = ground arith
  opt_out_stage_quiet slug (some sub) = refl

  pub side_routes_quiet :
      (share : Share) (slug : Text) (sub : Option Subroute)
      → stops_in is_content (side_routes w env request share slug sub) ≡ false
  unfolding side_routes
  side_routes_quiet share slug none = refl
  side_routes_quiet share slug (some frame) = ground arith
  side_routes_quiet share slug (some print) = ground arith
  side_routes_quiet share slug (some report) = ground (arith, report_quiet share)
  side_routes_quiet share slug (some _) = refl

  pub submissions_quiet :
      (share : Share) (sub : Option Subroute)
      → stops_in is_content (submissions w env request share sub) ≡ false
  unfolding submissions
  submissions_quiet share none = refl
  submissions_quiet share (some auth) = ground (arith, password_quiet share)
  submissions_quiet share (some email) = ground (arith, email_quiet share)
  submissions_quiet share (some _) = refl

  pub disabled_gate_quiet :
      (share : Share) (preview : Bool)
      → stops_in is_content (disabled_gate w env request share preview) ≡ false
  unfolding disabled_gate
  disabled_gate_quiet share preview = ground arith

  pub password_gate_quiet :
      (share : Share) (slug : Text) (preview : Bool) (r : Response)
      → is_content r ≡ false
      → stops_in is_content (password_gate w env request share slug preview r) ≡ false
  unfolding password_gate
  password_gate_quiet share slug preview r h = ground arith

  pub email_gate_quiet :
      (share : Share) (slug : Text) (preview : Bool) (r s : Response)
      → is_content r ≡ false
      → is_content s ≡ false
      → stops_in is_content (email_gate w env request share slug preview r s) ≡ false
  unfolding email_gate
  email_gate_quiet share slug preview r s h k = ground arith

  pub stored_host_quiet :
      (host : HostKind) (share : Share)
      → stops_in is_content (stored_host w env request host share) ≡ false
  unfolding stored_host enforce_stored_host
  stored_host_quiet host share = ground arith

  pub host_paths_quiet :
      (host : HostKind) → stops_in is_content (host_paths w env request host) ≡ false
  unfolding host_paths
  host_paths_quiet host = ground arith
