-- ===== src/Domains/Connect.antt =====
-- custom-domains.ts: `connectDomain`.
pub mod Safe
use Prim.Native.Char.{code}
use htmlradar.Common.{
  contains, ℕ, ◌+◌, ◌≡◌, refl, Text, codes, Option, none, some, List, [], ◌∷◌, ◌++◌, Bool, true,
  false, not, ◌&&◌, ◌||◌, if◌then◌else◌, same, includes, trim, to_lower, or_else, is_some, ◌==◌,
}
use htmlradar.Proxy.World.{DomainState, pending, live, disconnected, retired}
use htmlradar.Domains.Store.{
  Row, Store, Write, HostnameState, Tried, got, threw, Ask, create, state_of, restart, Visit,
  unanswered, page, Inserted, inserted, no_row, insert_failed, Wrote, matched, unmatched, db_failed,
  Note, server_error, Prog, done, ask, find, delete, visit, insert, write, note, ◌>>=◌,
}
use htmlradar.Domains.Hostnames.{
  Settings, Problem, custom_domains_enabled, pilot_owners, describe_hostname_problem,
  normalize_hostname,
}
use htmlradar.Domains.Claims.{
  Message, waiting_for_dns, waiting_for_certificate, live_now, live_default_failed, is_disconnected,
  cleanup_pending, Refusal, not_available, not_open, bad_hostname, unavailable, needs_review, limit,
  requires_pro, bare_name, reserved, invalid_format, could_not_connect, gone_while_connecting,
  gone_while_checking, was_disconnected, no_cloudflare, could_not_disconnect, Outcome, ok, error,
  same_state, row_in, owned_row, delete_twice, create_or_adopt_hostname, store_hostname_id, reaches,
  error_write,
}

-- `describeEnrolmentError`
unfoldable pub describe_enrolment_error : Option Text → Text → Option Refusal
describe_enrolment_error code message =
    if elim code [ none ↦ false | some c ↦ same c (codes "23505") ]
    then some unavailable
    else if contains (to_lower message) (codes "duplicate key")
    then some unavailable
    else if contains message (codes "custom_domain_unavailable")
    then some unavailable
    else if contains message (codes "custom_domain_needs_review")
    then some needs_review
    else if contains message (codes "custom_domain_limit")
    then some limit
    else if contains message (codes "custom_domain_requires_pro")
    then some requires_pro
    else if contains message (codes "custom_domain_bare")
    then some bare_name
    else if contains message (codes "custom_domain_reserved")
    then some reserved
    else if contains message (codes "custom_domain_invalid_format")
    then some invalid_format
    else none

abbrev note_statuses : HostnameState → ℕ → Row → Row
note_statuses state now r = record r {
  cloudflare_status = some state.status;
  ssl_status = some state.ssl_status;
  last_checked_at = some now;
  last_error = none;
}

-- `connectDomain` behind its INSERT.
connect_stored : Bool → Prog Outcome
connect_stored true = done (ok pending waiting_for_dns)
connect_stored false = done (error gone_while_connecting)

connect_created : ℕ → Text → Tried HostnameState → Prog Outcome
unfolding connect_stored store_hostname_id
connect_created now id (got state) =
    store_hostname_id id pending state (note_statuses state now) >>= connect_stored
connect_created now id (threw message) =
    note (server_error (codes "create_hostname") message)
      (write (error_write id pending message now) (λ _. done (ok pending waiting_for_dns)))

connect_inserted : ℕ → Text → Text → Prog Outcome
unfolding create_or_adopt_hostname connect_created
connect_inserted now hostname id = create_or_adopt_hostname hostname >>= connect_created now id

connect_refused : Text → Option Refusal → Prog Outcome
connect_refused message (some known) = done (error known)
connect_refused message none =
    note (server_error (codes "insert_domain") message) (done (error could_not_connect))

-- `if (!domainId)`
connect_row : ℕ → Text → Inserted → Prog Outcome
unfolding connect_inserted connect_refused describe_enrolment_error
connect_row now hostname (inserted []) = done (error could_not_connect)
connect_row now hostname (inserted (c ∷ id)) = connect_inserted now hostname (c ∷ id)
connect_row now hostname no_row = done (error could_not_connect)
connect_row now hostname (insert_failed code message) =
    connect_refused message (describe_enrolment_error code message)

abbrev pub closed_pilot : List Text → Text → Bool
closed_pilot [] user = false
closed_pilot (p ∷ ps) user = not (includes (p ∷ ps) user)

connect_unless : ℕ → Text → Text → Option Problem → Prog Outcome
unfolding connect_row
connect_unless now user hostname (some problem) = done (error (bad_hostname problem))
connect_unless now user hostname none = insert user hostname (connect_row now hostname)

unfoldable pub connect_domain : Settings → ℕ → Text → Text → Prog Outcome
unfolding connect_unless
connect_domain e now user raw =
    if not (custom_domains_enabled e)
    then done (error not_available)
    else if closed_pilot (pilot_owners e) user
    then done (error not_open)
    else connect_unless now user (normalize_hostname raw)
        (describe_hostname_problem e raw (some user))
