-- ===== src/Domains/Claims.antt =====
-- custom-domains.ts: what connecting and checking a hostname share. `await` of a Cloudflare call,
-- the probe or an UPDATE is one step of a program; a `try` is a case on `Tried`.
pub mod Safe
pub mod Earned
pub mod Told
use Prim.Native.Char.{code}
use htmlradar.Common.{
  contains, ℕ, ◌+◌, ◌≡◌, refl, Text, codes, Option, none, some, List, [], ◌∷◌, ◌++◌, Bool, true,
  false, not, ◌&&◌, ◌||◌, if◌then◌else◌, same, includes, trim, or_else, is_some, ◌==◌,
}
use htmlradar.Proxy.World.{DomainState, pending, live, disconnected, retired}
use htmlradar.Domains.Store.{
  Row, Store, Write, HostnameState, Tried, got, threw, Ask, create, state_of, restart, Visit,
  unanswered, page, Inserted, inserted, no_row, insert_failed, Wrote, matched, unmatched, db_failed,
  Note, server_error, Prog, done, ask, find, delete, visit, insert, write, note, ◌>>=◌,
}
use htmlradar.Domains.Hostnames.{
  Settings, Problem, custom_domains_enabled, pilot_owners, describe_hostname_problem,
  normalize_hostname,
}

pub data Message : Type 0 where
  waiting_for_dns waiting_for_certificate live_now live_default_failed is_disconnected
        cleanup_pending :
      Message

pub data Refusal : Type 0 where
  not_available not_open : Refusal
  bad_hostname : Problem → Refusal
  unavailable needs_review limit requires_pro bare_name reserved invalid_format : Refusal
  could_not_connect gone_while_connecting gone_while_checking was_disconnected : Refusal
  no_cloudflare could_not_disconnect : Refusal

pub data Outcome : Type 0 where
  ok : DomainState → Message → Outcome
  error : Refusal → Outcome

abbrev pub same_state : DomainState → DomainState → Bool
same_state pending pending = true
same_state live live = true
same_state disconnected disconnected = true
same_state retired retired = true
same_state _ _ = false

-- `.eq('id', id).eq('state', from)`
abbrev pub row_in : Text → DomainState → Store → Bool
row_in id from s = same s.row.id id && same_state s.row.state from

abbrev pub owned_row : Text → Text → Store → Bool
owned_row id owner s = same s.row.id id && same s.row.owner_id owner

-- `twice`, for the only call that it wraps.
unfoldable pub delete_again : Text → Tried (Unit {0}) → Prog (Tried (Unit {0}))
delete_again id (got u) = done (got u)
delete_again id (threw m) = delete id done

unfoldable pub delete_twice : Text → Prog (Tried (Unit {0}))
unfolding delete_again
delete_twice id = delete id (delete_again id)

-- `createOrAdoptHostname`: a second attempt that fails throws the first error.
or_first : Text → Tried HostnameState → Prog (Tried HostnameState)
or_first first (got s) = done (got s)
or_first first (threw m) = done (threw first)

adopt : Text → Text → Tried (Option HostnameState) → Prog (Tried HostnameState)
unfolding or_first
adopt hostname first (got (some s)) = done (got s)
adopt hostname first _ = ask (create hostname) (or_first first)

created_or : Text → Tried HostnameState → Prog (Tried HostnameState)
unfolding adopt
created_or hostname (got s) = done (got s)
created_or hostname (threw first) = find hostname (adopt hostname first)

unfoldable pub create_or_adopt_hostname : Text → Prog (Tried HostnameState)
unfolding created_or
create_or_adopt_hostname hostname = ask (create hostname) (created_or hostname)

-- The write of `storeHostnameId`, with what else it sets.
abbrev store_write : Text → DomainState → HostnameState → (Row → Row) → Write
store_write id from state extra = record {
  guard = row_in id from;
  change = λ s. record s { row = extra (record s.row { cloudflare_id = some state.id }) };
}

-- `storeHostnameId`: a hostname that no row took is deleted again.
orphan_gone : Tried (Unit {0}) → Prog Bool
orphan_gone (got u) = done false
orphan_gone (threw m) = note (server_error (codes "delete_orphan") m) (done false)

was_stored : HostnameState → Wrote → Prog Bool
unfolding orphan_gone delete_twice
was_stored state (matched r) = done true
was_stored state _ = delete_twice state.id >>= orphan_gone

unfoldable pub store_hostname_id : Text → DomainState → HostnameState → (Row → Row) → Prog Bool
unfolding was_stored
store_hostname_id id from state extra = write (store_write id from state extra) (was_stored state)

-- `probe`: the status, the header and the body have to be those of this very claim.
abbrev pub domain_body : Text → Text
domain_body id = codes "htmlradar-domain:" ++ id

abbrev pub reaches : Text → Visit → Bool
reaches id (unanswered m) = false
reaches id (page status header body size) =
    status == 200
    && elim header [ none ↦ false | some h ↦ same h id ]
    && same (trim body) (domain_body id)

abbrev pub error_write : Text → DomainState → Text → ℕ → Write
error_write id from message now = record {
  guard = row_in id from;
  change = λ s. record s {
    row = record s.row { last_error = some message; last_checked_at = some now };
  };
}
