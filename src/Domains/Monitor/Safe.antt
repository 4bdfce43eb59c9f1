-- ===== src/Domains/Monitor/Safe.antt =====
-- What the monitor does with one row keeps to the life of the claim.
use htmlradar.Common.{
  ◌≡◌, ◌≢◌, refl, ◌∙◌, ℕ, Text, codes, Option, none, some, [], ◌∷◌, Bool, true, false, inl, ◌&&◌,
  ◌||◌, ◌==◌, leb, ltb, if◌then◌else◌, arith, or_else, inr,
}
use htmlradar.Proxy.World.{DomainState, pending, live, disconnected, retired}
use htmlradar.Domains.Store.{
  Row, Store, Look, unreachable, http, unreadable, no_result, described, Removal, removal_threw,
  removal, Wrote, matched, unmatched, db_failed, Prog, write, done,
}
use htmlradar.Domains.Claims.{same_state}
use htmlradar.Domains.Monitor.{
  DomainCheck, passed, provider_problem, domain_problem, looked, monitor_look, monitor_check,
  if_matched, finish_promotion, unless_failed, announce_fall, patch, failed_fields, disconnecting,
  strikes, fail_domain, settle, settle_domain, removed, not_removed, error_noted,
  sweep_retired_domain, is_due, is_swept, domain_lifecycle, patch_retired, is_active, noted_fields,
  still_live_fields, live_fields,
}
use htmlradar.Domains.Lifecycle.{
  IsSafe, IsQuiet, if-IsSafe, if-IsQuiet, IsSafe-after, IsAllowed, noted, goes_live, falls, swept,
}
use htmlradar.Domains.Lifecycle.Writes.{same_state_sound, row_in_state, open_state}

looked-IsQuiet : (row : Row) (x : Look) → IsQuiet (looked row x)
unfolding looked
looked-IsQuiet row (unreachable m) = tt
looked-IsQuiet row (http status) = tt
looked-IsQuiet row unreadable = tt
looked-IsQuiet row no_result = tt
looked-IsQuiet row (described status ssl) =
    if-IsQuiet
      (is_active (or_else status (codes "unknown")) && is_active (or_else ssl (codes "unknown"))) _
      _ (λ v. tt) tt

monitor_look-IsQuiet : (row : Row) (x : Option Text) → IsQuiet (monitor_look row x)
unfolding monitor_look
monitor_look-IsQuiet row (some (c ∷ t)) = looked-IsQuiet row
monitor_look-IsQuiet row (some []) = tt
monitor_look-IsQuiet row none = tt

pub monitor_check-IsQuiet : (row : Row) → IsQuiet (monitor_check row)
unfolding monitor_check
monitor_check-IsQuiet row = monitor_look-IsQuiet row row.cloudflare_id

if_matched-IsSafe : (p : Prog Unit) → IsSafe false p → (w : Wrote) → IsSafe false (if_matched p w)
unfolding if_matched
if_matched-IsSafe p h (matched r) = h
if_matched-IsSafe p h unmatched = tt
if_matched-IsSafe p h (db_failed m) = tt

finish_promotion-IsSafe : (row : Row) → IsSafe false (finish_promotion row)
unfolding finish_promotion if_matched
finish_promotion-IsSafe row = (λ s c k e. inl refl, (false, λ s e. inl refl, λ r. tt), tt, λ m. tt)

announce_fall-IsSafe : (row : Row) (reason : Text) → IsSafe false (announce_fall row reason)
unfolding announce_fall unless_failed
announce_fall-IsSafe row reason =
    (λ s c k e. inl refl, (false, λ s e. inl refl, λ r. tt), tt, λ m. tt)

-- A write of the monitor on a row that was not retired.
patch-IsSafe :
    (row : Row) (fields : Row → Row) (p : Prog Unit)
    → IsAllowed false (patch row fields)
    → IsSafe false p
    → IsSafe false (write (patch row fields) (if_matched p))
unfolding if_matched
patch-IsSafe row fields p a h = (a, (false, λ s e. inl refl, λ r. h), tt, λ m. tt)

module _ (row : Row) (at : ℕ) (o : row.state ≢ retired) where
  guard_open : (f : Row → Row) (s : Store) → (patch row f).guard s ≡ true → s.row.state ≢ retired
  guard_open f s e = open_state row.id row.state s o (ground arith)

  settle-noted :
      (reason : Text) → IsSafe false (write (patch row (noted_fields reason at)) (λ _. done tt))
  settle-noted reason = (
    λ s c k e. inr (noted (guard_open (noted_fields reason at) s e) refl refl (refl, refl, refl)),
    (false, λ s e. inl refl, λ r. tt),
    tt,
    λ m. tt,
  )

  -- The row falls only where it was live.
  fallen-live :
      (reason : Text) (s : Store)
      → (patch row (failed_fields true (strikes row) reason at)).guard s ≡ true
      → disconnecting row ≡ true
      → s.row.state ≡ live
  fallen-live reason s e d =
      row_in_state row.id row.state s (ground arith)
      ∙ same_state_sound row.state live (ground arith)

  failed-IsAllowed :
      (b : Bool) (reason : Text)
      → disconnecting row ≡ b
      → IsAllowed false (patch row (failed_fields b (strikes row) reason at))
  failed-IsAllowed true reason d s c k e =
      inr (falls (fallen-live reason s e d) refl refl (refl, refl, refl))
  failed-IsAllowed false reason d s c k e = inr (
      noted (guard_open (failed_fields false (strikes row) reason at) s e) refl refl
        (refl, refl, refl))

  fail_domain-IsSafe : (reason : Text) → IsSafe false (fail_domain row reason at)
  unfolding fail_domain
  fail_domain-IsSafe reason =
      if-IsSafe false (same_state row.state pending) _ _ (λ b. settle-noted reason)
        λ b.
          patch-IsSafe row (failed_fields (disconnecting row) (strikes row) reason at)
            (if disconnecting row then announce_fall row reason else done tt)
            (failed-IsAllowed (disconnecting row) reason refl)
            (if-IsSafe false (disconnecting row) _ _ (λ d. announce_fall-IsSafe row reason)
              (λ d. tt))

  settle-IsSafe : (x : DomainCheck) → IsSafe false (settle row at x)
  unfolding settle
  settle-IsSafe (provider_problem reason) = settle-noted reason
  settle-IsSafe (domain_problem reason) = fail_domain-IsSafe reason
  settle-IsSafe (passed status ssl) =
      if-IsSafe false (same_state row.state live) _ _
        (λ b.
          patch-IsSafe row (still_live_fields status ssl at) (finish_promotion row)
            (λ s c k e. inr (
              noted (guard_open (still_live_fields status ssl at) s e) refl refl
                (refl, refl, refl)))
            (finish_promotion-IsSafe row))
        (λ b.
          patch-IsSafe row (live_fields status ssl at) (finish_promotion row)
            (λ s c k e.
              inr (
                goes_live (guard_open (live_fields status ssl at) s e) refl refl
                  (refl, refl, refl)))
            (finish_promotion-IsSafe row))

  settle_domain-IsSafe : IsSafe false (settle_domain row at)
  unfolding settle_domain
  settle_domain-IsSafe =
      IsSafe-after false (monitor_check row) (settle row at) (monitor_check-IsQuiet row)
        settle-IsSafe

-- The sweep writes only to a row that is retired, and only what the sweep may.
retired-IsSafe :
    (row : Row) (fields : Row → Row) (n : Wrote → Prog Unit)
    → ((r : Row)
        → fields r ≡ record r {
          last_error = (fields r).last_error;
          cloudflare_deleted_at = (fields r).cloudflare_deleted_at;
        })
    → ((w : Wrote) → IsSafe false (n w))
    → IsSafe false (write (patch_retired row fields) n)
retired-IsSafe row fields n only h = (
  λ s c k e. inr (swept (row_in_state row.id retired s (ground arith)) (only s.row)),
  (false, λ s e. inl refl, λ r. h (matched r)),
  h unmatched,
  λ m. h (db_failed m),
)

not_removed-IsSafe : (row : Row) (w : Wrote) → IsSafe false (not_removed row w)
unfolding not_removed
not_removed-IsSafe row (matched r) = tt
not_removed-IsSafe row unmatched = tt
not_removed-IsSafe row (db_failed m) =
    retired-IsSafe row (error_noted m) (λ _. done tt) (λ r. refl) (λ w. tt)

removed-IsSafe : (row : Row) (at : ℕ) (x : Removal) → IsSafe false (removed row at x)
unfolding removed
removed-IsSafe row at (removal_threw m) =
    retired-IsSafe row (error_noted m) (λ _. done tt) (λ r. refl) (λ w. tt)
removed-IsSafe row at (removal status) =
    if-IsSafe false (leb 200 status && ltb status 300 || status == 404) _ _
      (λ b. retired-IsSafe row _ (λ _. done tt) (λ r. refl) (λ w. tt))
      (λ b. retired-IsSafe row _ (not_removed row) (λ r. refl) (not_removed-IsSafe row))

is_due-retired :
    (now created : ℕ) (row : Row) → row.state ≡ retired → is_due now created row ≡ false
unfolding is_due
is_due-retired now created row e = rw e refl

due-open :
    (now created : ℕ) (d : DomainState) (row : Row)
    → row.state ≡ d
    → is_due now created row ≡ true
    → d ≢ retired
unfolding is_due
due-open now created pending row e h r = ground arith
due-open now created live row e h r = ground arith
due-open now created disconnected row e h r = ground arith
due-open now created retired row e h r = ground (arith, is_due-retired now created row e)

pub domain_lifecycle-IsSafe :
    (now created : ℕ) (row : Row) → IsSafe false (domain_lifecycle now created row)
unfolding domain_lifecycle sweep_retired_domain
domain_lifecycle-IsSafe now created row =
    if-IsSafe false (is_due now created row) _ _
      (λ b. settle_domain-IsSafe row now (due-open now created row.state row refl b))
      λ b. if-IsSafe false (is_swept now row) _ _ (λ c. removed-IsSafe row now) (λ c. tt)
