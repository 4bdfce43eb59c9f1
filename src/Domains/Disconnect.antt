-- ===== src/Domains/Disconnect.antt =====
-- custom-domains.ts: `disconnectDomain`.
pub mod Safe
pub mod Told
use Prim.Native.Char.{code}
use htmlradar.Common.{
  contains, ℕ, ◌+◌, ◌≡◌, refl, Text, codes, Option, none, some, List, [], ◌∷◌, ◌++◌, Bool, true,
  false, not, ◌&&◌, ◌||◌, if◌then◌else◌, same, includes, trim, or_else, is_some, ◌==◌,
}
use htmlradar.Proxy.World.{DomainState, pending, live, disconnected, retired}
use htmlradar.Domains.Store.{
  Row, Store, Write, HostnameState, Tried, got, threw, Ask, create, state_of, restart, Visit,
  unanswered, page, Inserted, inserted, no_row, insert_failed, Wrote, matched, unmatched, db_failed,
  Note, server_error, Prog, done, ask, find, delete, visit, insert, write, note, ◌>>=◌,
}
use htmlradar.Domains.Hostnames.{
  Settings, Problem, custom_domains_enabled, pilot_owners, describe_hostname_problem,
  normalize_hostname,
}
use htmlradar.Domains.Claims.{
  Message, waiting_for_dns, waiting_for_certificate, live_now, live_default_failed, is_disconnected,
  cleanup_pending, Refusal, not_available, not_open, bad_hostname, unavailable, needs_review, limit,
  requires_pro, bare_name, reserved, invalid_format, could_not_connect, gone_while_connecting,
  gone_while_checking, was_disconnected, no_cloudflare, could_not_disconnect, Outcome, ok, error,
  same_state, row_in, owned_row, delete_twice, create_or_adopt_hostname, store_hostname_id, reaches,
  error_write,
}

-- `disconnectDomain`: its three writes.
abbrev forget_default_write : Text → Text → Write
forget_default_write user id = record {
  guard = λ s. same s.row.owner_id user && elim s.default_id [ none ↦ false | some d ↦ same d id ];
  change = λ s. record s { default_id = none };
}

abbrev retire_write : Text → Text → ℕ → Write
retire_write user id now = record {
  guard = λ s. owned_row id user s && not (is_some s.row.retired_at);
  change = λ s. record s { row = record s.row { state = retired; retired_at = some now } };
}

abbrev deleted_write : Text → Text → ℕ → Write
deleted_write user id now = record {
  guard = owned_row id user;
  change = λ s. record s { row = record s.row { cloudflare_deleted_at = some now } };
}

cleaned : Text → Text → ℕ → Tried (Unit {0}) → Prog Outcome
cleaned user id now (got u) =
    write (deleted_write user id now) (λ _. done (ok retired is_disconnected))
cleaned user id now (threw m) =
    note (server_error (codes "delete_hostname") m) (done (ok retired cleanup_pending))

clean_up : Text → Text → ℕ → Option Text → Prog Outcome
unfolding delete_twice cleaned
clean_up user id now (some (c ∷ t)) = delete_twice (c ∷ t) >>= cleaned user id now
clean_up user id now _ = done (ok retired is_disconnected)

was_retired : ℕ → Text → Text → Wrote → Prog Outcome
unfolding clean_up
was_retired now user id (matched row) = clean_up user id now row.cloudflare_id
was_retired now user id unmatched = done (ok retired is_disconnected)
was_retired now user id (db_failed m) =
    note (server_error (codes "retire_domain") m) (done (error could_not_disconnect))

retire : ℕ → Text → Text → Prog Outcome
unfolding was_retired
retire now user id = write (retire_write user id now) (was_retired now user id)

unfoldable pub disconnect_domain : ℕ → Text → Text → Prog Outcome
unfolding retire
disconnect_domain now user id = write (forget_default_write user id) (λ _. retire now user id)
