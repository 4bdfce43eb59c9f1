-- ===== src/Domains/Monitor.antt =====
-- packages/monitor/src/index.ts: `domainLifecycle`, which every five minutes settles the domains that
-- are due and, once an hour, sweeps the retired ones. An exception ends the row's program.
pub mod Safe
pub mod Earned
pub mod Settled
use Prim.Native.Char.{code}
use htmlradar.Common.{
  ℕ, ◌+◌, ◌-◌, ◌*◌, ◌/◌, ◌%◌, ◌≡◌, refl, Text, codes, Option, none, some, List, [], ◌∷◌, ◌++◌, Bool,
  true, false, not, ◌&&◌, ◌||◌, if◌then◌else◌, same, or_else, is_some, ◌==◌, ltb, leb,
}
use htmlradar.Common.Decimal.{to_dec}
use htmlradar.Proxy.World.{DomainState, pending, live, disconnected, retired}
use htmlradar.Domains.Store.{
  Row, Store, Write, Visit, unanswered, page, Look, unreachable, http, unreadable, no_result,
  described, Removal, removal_threw, removal, Wrote, matched, unmatched, db_failed, Note,
  domain_connected, domain_disconnected, Prog, done, visit, look, remove, write, note, ◌>>=◌,
}
use htmlradar.Domains.Claims.{same_state, row_in}

abbrev pub domain_settle_ms : ℕ
domain_settle_ms = 60000

abbrev pub domain_recheck_ms : ℕ
domain_recheck_ms = 60 * 60000

abbrev pub domain_failures_to_disconnect : ℕ
domain_failures_to_disconnect = 2

abbrev probe_body_max_bytes : ℕ
probe_body_max_bytes = 256

-- `DomainCheck`: what failed is the provider, or the domain.
pub data DomainCheck : Type 0 where
  passed : (status ssl_status : Text) → DomainCheck
  provider_problem : (reason : Text) → DomainCheck
  domain_problem : (reason : Text) → DomainCheck

abbrev header_is : Option Text → Text → Bool
header_is none id = false
header_is (some h) id = same h id

-- The probe's part of `checkDomain`, with `readCappedBody` on the body's size.
unfoldable pub probed : Text → Text → Text → Visit → DomainCheck
probed id status ssl (unanswered m) = domain_problem (codes "probe failed: " ++ m)
probed id status ssl (page code header body size) =
    if not (leb 200 code && ltb code 300)
    then domain_problem (codes "probe HTTP " ++ to_dec code)
    else if not (header_is header id)
    then domain_problem (codes "probe answered without our header")
    else if ltb probe_body_max_bytes size || not (same body (codes "htmlradar-domain:" ++ id))
    then domain_problem (codes "probe answered with the wrong body")
    else passed status ssl

abbrev pub is_active : Text → Bool
is_active s = same s (codes "active")

looked : Row → Look → Prog DomainCheck
unfolding probed
looked row (unreachable m) = done (provider_problem (codes "cloudflare unreachable: " ++ m))
looked row (http status) = done (provider_problem (codes "cloudflare HTTP " ++ to_dec status))
looked row unreadable =
    done (provider_problem (codes "cloudflare answered with a body we could not read"))
looked row no_result = done (provider_problem (codes "cloudflare answered without a hostname"))
looked row (described status0 ssl0) =
    let status = or_else status0 (codes "unknown") in
    let ssl = or_else ssl0 (codes "unknown") in
    if is_active status && is_active ssl
    then visit row.hostname (λ v. done (probed row.id status ssl v))
    else done
        (domain_problem (codes "cloudflare hostname " ++ status ++ codes ", certificate " ++ ssl))

-- `checkDomain` of the monitor
monitor_look : Row → Option Text → Prog DomainCheck
unfolding looked
monitor_look row (some (c ∷ t)) = look (c ∷ t) (looked row)
monitor_look row _ = done (domain_problem (codes "no Cloudflare hostname id on the row"))

unfoldable pub monitor_check : Row → Prog DomainCheck
unfolding monitor_look
monitor_check row = monitor_look row row.cloudflare_id

-- `last_checked_at=is.null`, or `eq.` the instant that was read.
abbrev pub same_instant : Option ℕ → Option ℕ → Bool
same_instant none none = true
same_instant (some a) (some b) = a == b
same_instant _ _ = false

-- The UPDATE of `patchDomain`: the row has to be as it was read.
abbrev patch : Row → (Row → Row) → Write
patch row fields = record {
  guard = λ s. row_in row.id row.state s && same_instant s.row.last_checked_at row.last_checked_at;
  change = λ s. record s { row = fields s.row };
}

-- The UPDATE of `patchDefaultDomain`, on what the default is now.
abbrev patch_default : Text → Option Text → Option Text → Write
patch_default owner is value = record {
  guard = λ s.
      same s.row.owner_id owner
      && elim is [ none ↦ not (is_some s.default_id) | some id ↦ header_is s.default_id id ];
  change = λ s. record s { default_id = value };
}

-- `if (!changed) return`
if_matched : Prog (Unit {0}) → Wrote → Prog (Unit {0})
if_matched p (matched r) = p
if_matched p _ = done tt

-- `finishPromotion`
finish_promotion : Row → Prog (Unit {0})
unfolding if_matched
finish_promotion row =
    write (patch_default row.owner_id none (some row.id))
      (if_matched (note (domain_connected row.hostname) (done tt)))

-- The rest is not reached when the database failed, since that throws.
unless_failed : Prog (Unit {0}) → Wrote → Prog (Unit {0})
unless_failed p (db_failed m) = done tt
unless_failed p _ = p

abbrev noted_fields : Text → ℕ → Row → Row
noted_fields reason at r = record r { last_error = some reason; last_checked_at = some at }

abbrev failed_fields : Bool → ℕ → Text → ℕ → Row → Row
failed_fields disconnecting failures reason at r = record r {
  state = if disconnecting then disconnected else r.state;
  consecutive_failures = some failures;
  last_error = some reason;
  last_checked_at = some at;
}

abbrev still_live_fields : Text → Text → ℕ → Row → Row
still_live_fields status ssl at r = record r {
  cloudflare_status = some status;
  ssl_status = some ssl;
  last_checked_at = some at;
  consecutive_failures = some 0;
  last_error = none;
}

abbrev live_fields : Text → Text → ℕ → Row → Row
live_fields status ssl at r = record r {
  state = live;
  cloudflare_status = some status;
  ssl_status = some ssl;
  verified_at = some at;
  last_checked_at = some at;
  consecutive_failures = some 0;
  last_error = none;
}

announce_fall : Row → Text → Prog (Unit {0})
unfolding unless_failed
announce_fall row reason =
    write (patch_default row.owner_id (some row.id) none)
      (unless_failed (note (domain_disconnected row.hostname reason) (done tt)))

-- Two strikes: only a live domain falls, and only when the failures add up.
abbrev pub strikes : Row → ℕ
strikes row = or_else row.consecutive_failures 0 + 1

abbrev pub disconnecting : Row → Bool
disconnecting row = same_state row.state live && leb domain_failures_to_disconnect (strikes row)

fail_domain : Row → Text → ℕ → Prog (Unit {0})
unfolding announce_fall if_matched
fail_domain row reason at =
    if same_state row.state pending
    then write (patch row (noted_fields reason at)) (λ _. done tt)
    else write (patch row (failed_fields (disconnecting row) (strikes row) reason at))
        (if_matched (if disconnecting row then announce_fall row reason else done tt))

pub settle : Row → ℕ → DomainCheck → Prog (Unit {0})
unfolding fail_domain if_matched finish_promotion
settle row at (provider_problem reason) = write (patch row (noted_fields reason at)) (λ _. done tt)
settle row at (domain_problem reason) = fail_domain row reason at
settle row at (passed status ssl) =
    if same_state row.state live
    then write (patch row (still_live_fields status ssl at)) (if_matched (finish_promotion row))
    else write (patch row (live_fields status ssl at)) (if_matched (finish_promotion row))

-- `settleDomain`
unfoldable pub settle_domain : Row → ℕ → Prog (Unit {0})
unfolding monitor_check settle
settle_domain row at = monitor_check row >>= settle row at

-- The UPDATE of `patchRetiredDomain`.
abbrev patch_retired : Row → (Row → Row) → Write
patch_retired row fields = record {
  guard = λ s. row_in row.id retired s && not (is_some s.row.cloudflare_deleted_at);
  change = λ s. record s { row = fields s.row };
}

abbrev error_noted : Text → Row → Row
error_noted message r = record r { last_error = some (codes "cloudflare unreachable: " ++ message) }

-- The `catch` covers the UPDATE that notes a refusal, too.
not_removed : Row → Wrote → Prog (Unit {0})
not_removed row (db_failed m) = write (patch_retired row (error_noted m)) (λ _. done tt)
not_removed row _ = done tt

removed : Row → ℕ → Removal → Prog (Unit {0})
unfolding not_removed
removed row at (removal_threw m) = write (patch_retired row (error_noted m)) (λ _. done tt)
removed row at (removal status) =
    if leb 200 status && ltb status 300 || status == 404
    then write (patch_retired row (λ r. record r { cloudflare_deleted_at = some at }))
        (λ _. done tt)
    else write
        (patch_retired row
          (λ r. record r { last_error = some (codes "cloudflare DELETE HTTP " ++ to_dec status) }))
        (not_removed row)

-- `sweepRetiredDomain`
unfoldable pub sweep_retired_domain : Row → ℕ → Prog (Unit {0})
unfolding removed
sweep_retired_domain row at = remove (or_else row.cloudflare_id []) (removed row at)

-- The rows that `domainLifecycle` settles: `created_at` comes with the row that was read.
unfoldable pub is_due : ℕ → ℕ → Row → Bool
is_due now created row = elim row.state [
  | retired ↦ false
  | pending ↦ leb (created + domain_settle_ms) now
  | live ↦ elim row.last_checked_at [ none ↦ true | some at ↦ leb (at + domain_recheck_ms) now ]
  | disconnected ↦ elim row.last_checked_at [
    | none ↦ true
    | some at ↦ leb (at + domain_recheck_ms) now
  ]
]

abbrev is_given : Option Text → Bool
is_given none = false
is_given (some []) = false
is_given (some (c ∷ t)) = true

-- The first five minutes of an hour sweep.
unfoldable pub is_swept : ℕ → Row → Bool
is_swept now row =
    ltb ((now / 60000) % 60) 5
    && same_state row.state retired
    && is_given row.cloudflare_id
    && not (is_some row.cloudflare_deleted_at)

-- `domainLifecycle`, for one row of the table that it read.
unfoldable pub domain_lifecycle : ℕ → ℕ → Row → Prog (Unit {0})
unfolding is_due is_swept settle_domain sweep_retired_domain
domain_lifecycle now created row =
    if is_due now created row
    then settle_domain row now
    else if is_swept now row
    then sweep_retired_domain row now
    else done tt
