-- ===== src/Domains/Check.antt =====
-- custom-domains.ts: `checkDomain`.
pub mod Safe
pub mod Earned
pub mod Told
pub mod Live
use Prim.Native.Char.{code}
use htmlradar.Common.{
  contains, ℕ, ◌+◌, ◌≡◌, refl, Text, codes, Option, none, some, List, [], ◌∷◌, ◌++◌, Bool, true,
  false, not, ◌&&◌, ◌||◌, if◌then◌else◌, same, includes, trim, or_else, is_some, ◌==◌,
}
use htmlradar.Proxy.World.{DomainState, pending, live, disconnected, retired}
use htmlradar.Domains.Store.{
  Row, Store, Write, HostnameState, Tried, got, threw, Ask, create, state_of, restart, Visit,
  unanswered, page, Inserted, inserted, no_row, insert_failed, Wrote, matched, unmatched, db_failed,
  Note, server_error, Prog, done, ask, find, delete, visit, insert, write, note, ◌>>=◌,
}
use htmlradar.Domains.Hostnames.{
  Settings, Problem, custom_domains_enabled, pilot_owners, describe_hostname_problem,
  normalize_hostname,
}
use htmlradar.Domains.Claims.{
  Message, waiting_for_dns, waiting_for_certificate, live_now, live_default_failed, is_disconnected,
  cleanup_pending, Refusal, not_available, not_open, bad_hostname, unavailable, needs_review, limit,
  requires_pro, bare_name, reserved, invalid_format, could_not_connect, gone_while_connecting,
  gone_while_checking, was_disconnected, no_cloudflare, could_not_disconnect, Outcome, ok, error,
  same_state, row_in, owned_row, delete_twice, create_or_adopt_hostname, store_hostname_id, reaches,
  error_write,
}

-- `checkDomain`: its writes.
abbrev promote_write : Row → HostnameState → ℕ → Write
promote_write domain current now = record {
  guard = row_in domain.id domain.state;
  change = λ s. record s {
    row = record s.row {
      state = live;
      cloudflare_status = some current.status;
      ssl_status = some current.ssl_status;
      verified_at = some (or_else domain.verified_at now);
      last_checked_at = some now;
      last_error = none;
      consecutive_failures = some 0;
    };
  };
}

abbrev pub default_write : Text → Text → Write
default_write user id = record {
  guard = λ s. same s.row.owner_id user;
  change = λ s. record s { default_id = some id };
}

abbrev waiting_write : Row → HostnameState → Text → ℕ → Write
waiting_write domain current message now = record {
  guard = row_in domain.id domain.state;
  change = λ s. record s {
    row = record s.row {
      cloudflare_status = some current.status;
      ssl_status = some current.ssl_status;
      last_checked_at = some now;
      last_error = some message;
      consecutive_failures = some (or_else domain.consecutive_failures 0 + 1);
    };
  };
}

-- `/timed_out|expired|deleted/.test(sslStatus)`
abbrev is_stalled : Text → Bool
is_stalled s =
    contains s (codes "timed_out") || contains s (codes "expired") || contains s (codes "deleted")

abbrev pub is_active : Text → Bool
is_active s = same s (codes "active")

abbrev waiting_text : Message → Text
waiting_text waiting_for_certificate =
    codes
      "The record is there and the certificate is being issued. This usually takes a few minutes."
waiting_text _ =
    codes
      "Waiting for the CNAME record. Add it at your DNS provider — it can take a few minutes to spread."

-- The default for new links follows the promotion.
default_made : Wrote → Prog Outcome
default_made (matched r) = done (ok live live_now)
default_made unmatched =
    note
      (server_error (codes "set_default_domain")
        (codes "setting the default custom domain matched no row"))
      (done (ok live live_default_failed))
default_made (db_failed m) =
    note (server_error (codes "set_default_domain") m) (done (ok live live_default_failed))

promoted : Text → Row → Wrote → Prog Outcome
unfolding default_made
promoted user domain (matched r) = write (default_write user domain.id) default_made
promoted user domain _ = done (error gone_while_checking)

promote : Text → Row → HostnameState → ℕ → Prog Outcome
unfolding promoted
promote user domain current now = write (promote_write domain current now) (promoted user domain)

still_waiting : Row → HostnameState → Text → Message → ℕ → Prog Outcome
still_waiting domain current text message now =
    write (waiting_write domain current text now) (λ _. done (ok domain.state message))

check_visited : Text → Row → HostnameState → ℕ → Bool → Prog Outcome
unfolding promote still_waiting
check_visited user domain current now true = promote user domain current now
check_visited user domain current now false =
    still_waiting domain current (codes "The domain does not reach HTMLRadar yet.") waiting_for_dns
      now

-- With the state that Cloudflare reports now.
check_current : Text → Row → HostnameState → ℕ → Prog Outcome
unfolding check_visited still_waiting
check_current user domain current now =
    let message = if is_active current.status then waiting_for_certificate else waiting_for_dns in
    if is_active current.status && is_active current.ssl_status
    then visit domain.hostname (λ v. check_visited user domain current now (reaches domain.id v))
    else still_waiting domain current (waiting_text message) message now

-- The `catch` of `checkDomain`.
check_failed : Row → Text → ℕ → Prog Outcome
check_failed domain message now =
    note (server_error (codes "check_domain") message)
      (write (error_write domain.id domain.state message now) (λ _. done (error no_cloudflare)))

check_restarted : Text → Row → ℕ → Tried HostnameState → Prog Outcome
unfolding check_current check_failed
check_restarted user domain now (threw m) = check_failed domain m now
check_restarted user domain now (got current) = check_current user domain current now

check_stated : Text → Row → Text → ℕ → Tried HostnameState → Prog Outcome
unfolding check_restarted
check_stated user domain id now (threw m) = check_failed domain m now
check_stated user domain id now (got state) =
    if is_stalled state.ssl_status
    then ask (restart id) (check_restarted user domain now)
    else check_current user domain state now

check_stored : Text → Row → Text → ℕ → Prog Outcome
unfolding check_stated
check_stored user domain id now = ask (state_of id) (check_stated user domain id now)

check_kept : Text → Row → Text → ℕ → Bool → Prog Outcome
unfolding check_stored
check_kept user domain id now true = check_stored user domain id now
check_kept user domain id now false = done (error gone_while_checking)

check_created : Text → Row → ℕ → Tried HostnameState → Prog Outcome
unfolding check_failed check_kept store_hostname_id
check_created user domain now (threw m) = check_failed domain m now
check_created user domain now (got created) =
    store_hostname_id domain.id domain.state created (λ r. r)
    >>= check_kept user domain created.id now

-- `if (!cloudflareId)`
with_cloudflare : Text → Row → ℕ → Option Text → Prog Outcome
unfolding check_created create_or_adopt_hostname
with_cloudflare user domain now (some (c ∷ id)) = check_stored user domain (c ∷ id) now
with_cloudflare user domain now _ =
    create_or_adopt_hostname domain.hostname >>= check_created user domain now

unfoldable pub check_domain : ℕ → Text → Row → Prog Outcome
unfolding with_cloudflare
check_domain now user domain =
    if same_state domain.state retired
    then done (error was_disconnected)
    else if domain.previous_owner_review
    then done (error needs_review)
    else with_cloudflare user domain now domain.cloudflare_id
