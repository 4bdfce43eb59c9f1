-- ===== src/Domains/Check/Told.antt =====
-- What a check tells the owner is what the row is, and a check of a working hostname brings it live.
use htmlradar.Common.{
  ◌≡◌, refl, ◌∙◌, ℕ, Text, codes, Option, none, some, [], ◌∷◌, Bool, true, false, ◌&&◌,
  if◌then◌else◌,
}
use htmlradar.Proxy.World.{live, retired}
use htmlradar.Domains.Store.{
  Row, Store, HostnameState, Tried, got, threw, Wrote, matched, unmatched, db_failed, Answers, done,
  ask, restart, visit, ◌>>=◌,
}
use htmlradar.Domains.Claims.{
  Message, waiting_for_certificate, waiting_for_dns, Outcome, ok, error, no_cloudflare,
  was_disconnected, needs_review, same_state, error_write, create_or_adopt_hostname, reaches,
}
use htmlradar.Domains.Check.{
  default_made, default_write, promote_write, waiting_write, promoted, promote, still_waiting,
  check_visited, check_current, check_failed, check_restarted, check_stated, check_stored,
  check_kept, check_created, with_cloudflare, check_domain, is_active, is_stalled, waiting_text,
}
use htmlradar.Domains.Claims.Told.{store_hostname_id-EndsIn}
use htmlradar.Domains.Claims.Safe.{create_or_adopt_hostname-IsQuiet}
use htmlradar.Domains.Alone.{
  complete, EndsIn, complete-EndsIn, write-EndsIn, EndsIn-after, if-EndsIn,
}

-- A state that is told is the state of the row.
abbrev pub IsShown : Outcome → Store → Type 0
IsShown (ok d m) t = t.row.state ≡ d
IsShown (error r) t = Unit

default_made-EndsIn :
    (s : Store) (w : Wrote) → s.row.state ≡ live → EndsIn IsShown (default_made w) s
unfolding default_made
default_made-EndsIn s (matched r) e = e
default_made-EndsIn s unmatched e = e
default_made-EndsIn s (db_failed m) e = e

promoted-EndsIn :
    (user : Text) (domain : Row) (s : Store)
    → s.row.state ≡ live
    → (r : Row) → EndsIn IsShown (promoted user domain (matched r)) s
unfolding promoted
promoted-EndsIn user domain s e r =
    let made = default_write user domain.id in
    write-EndsIn IsShown made default_made s
      (λ g. default_made-EndsIn (made.change s) (matched (made.change s).row) e)
      (λ g. default_made-EndsIn s unmatched e) (λ m. default_made-EndsIn s (db_failed m) e)
      (λ g m. default_made-EndsIn (made.change s) (db_failed m) e)

module _ (user : Text) (domain : Row) (now : ℕ) where
  still_waiting-EndsIn :
      (current : HostnameState) (text : Text) (m : Message) (s : Store)
      → s.row.state ≡ domain.state
      → EndsIn IsShown (still_waiting domain current text m now) s
  unfolding still_waiting
  still_waiting-EndsIn current text m s e =
      write-EndsIn IsShown (waiting_write domain current text now) (λ _. done (ok domain.state m)) s
        (λ g. e) (λ g. e) (λ l. e) (λ g l. e)

  check_failed-EndsIn : (m : Text) (s : Store) → EndsIn IsShown (check_failed domain m now) s
  unfolding check_failed
  check_failed-EndsIn m s =
      write-EndsIn IsShown (error_write domain.id domain.state m now)
        (λ _. done (error no_cloudflare)) s (λ g. tt) (λ g. tt) (λ l. tt) (λ g l. tt)

  promote-EndsIn :
      (current : HostnameState) (s : Store) → EndsIn IsShown (promote user domain current now) s
  unfolding promote promoted
  promote-EndsIn current s =
      let brought = promote_write domain current now in
      write-EndsIn IsShown brought (promoted user domain) s
        (λ g. promoted-EndsIn user domain (brought.change s) refl (brought.change s).row) (λ g. tt)
        (λ m. tt) (λ g m. tt)

  check_visited-EndsIn :
      (current : HostnameState) (s : Store)
      → s.row.state ≡ domain.state
      → (b : Bool) → EndsIn IsShown (check_visited user domain current now b) s
  unfolding check_visited
  check_visited-EndsIn current s e true = promote-EndsIn current s
  check_visited-EndsIn current s e false =
      still_waiting-EndsIn current (codes "The domain does not reach HTMLRadar yet.")
        waiting_for_dns s e

  check_current-EndsIn :
      (current : HostnameState) (s : Store)
      → s.row.state ≡ domain.state
      → EndsIn IsShown (check_current user domain current now) s
  unfolding check_current
  check_current-EndsIn current s e =
      let message = if is_active current.status then waiting_for_certificate else waiting_for_dns in
      if-EndsIn IsShown (is_active current.status && is_active current.ssl_status)
        (visit domain.hostname (λ v. check_visited user domain current now (reaches domain.id v)))
        (still_waiting domain current (waiting_text message) message now) s
        (λ v. check_visited-EndsIn current s e (reaches domain.id v))
        (still_waiting-EndsIn current (waiting_text message) message s e)

  check_restarted-EndsIn :
      (s : Store)
      → s.row.state ≡ domain.state
      → (x : Tried HostnameState) → EndsIn IsShown (check_restarted user domain now x) s
  unfolding check_restarted
  check_restarted-EndsIn s e (threw m) = check_failed-EndsIn m s
  check_restarted-EndsIn s e (got current) = check_current-EndsIn current s e

  check_stated-EndsIn :
      (id : Text) (s : Store)
      → s.row.state ≡ domain.state
      → (x : Tried HostnameState) → EndsIn IsShown (check_stated user domain id now x) s
  unfolding check_stated
  check_stated-EndsIn id s e (threw m) = check_failed-EndsIn m s
  check_stated-EndsIn id s e (got state) =
      if-EndsIn IsShown (is_stalled state.ssl_status)
        (ask (restart id) (check_restarted user domain now)) (check_current user domain state now) s
        (check_restarted-EndsIn s e) (check_current-EndsIn state s e)

  check_kept-EndsIn :
      (id : Text) (s : Store)
      → s.row.state ≡ domain.state
      → (b : Bool) → EndsIn IsShown (check_kept user domain id now b) s
  unfolding check_kept check_stored
  check_kept-EndsIn id s e true = check_stated-EndsIn id s e
  check_kept-EndsIn id s e false = tt

  check_created-EndsIn :
      (s : Store)
      → s.row.state ≡ domain.state
      → (x : Tried HostnameState) → EndsIn IsShown (check_created user domain now x) s
  unfolding check_created
  check_created-EndsIn s e (threw m) = check_failed-EndsIn m s
  check_created-EndsIn s e (got created) =
      store_hostname_id-EndsIn IsShown (check_kept user domain created.id now) s domain.id
        domain.state created (λ t f b. check_kept-EndsIn created.id t (f ∙ e) b)

  fresh-EndsIn :
      (s : Store)
      → s.row.state ≡ domain.state
      → EndsIn IsShown
          (create_or_adopt_hostname domain.hostname >>= check_created user domain now)
          s
  fresh-EndsIn s e =
      EndsIn-after IsShown (create_or_adopt_hostname domain.hostname)
        (check_created user domain now) s (create_or_adopt_hostname-IsQuiet domain.hostname)
        (check_created-EndsIn s e)

  with_cloudflare-EndsIn :
      (s : Store)
      → s.row.state ≡ domain.state
      → (x : Option Text) → EndsIn IsShown (with_cloudflare user domain now x) s
  unfolding with_cloudflare check_stored
  with_cloudflare-EndsIn s e (some (c ∷ id)) = check_stated-EndsIn (c ∷ id) s e
  with_cloudflare-EndsIn s e (some []) = fresh-EndsIn s e
  with_cloudflare-EndsIn s e none = fresh-EndsIn s e

-- However Cloudflare, the probe and the database answer while nothing else moves, for the row as it
-- stands: the state that `checkDomain` tells the owner is the state of the row when it ends.
pub check_domain-IsShown :
    (o : ℕ → Answers) (now : ℕ) (user : Text) (s : Store)
    → IsShown
        (complete o 0 (check_domain now user s.row) s).0
        (complete o 0 (check_domain now user s.row) s).1
unfolding check_domain
check_domain-IsShown o now user s = complete-EndsIn IsShown o 0 (check_domain now user s.row) s (
    if-EndsIn IsShown (same_state s.row.state retired) (done (error was_disconnected)) _ s tt (
      if-EndsIn IsShown s.row.previous_owner_review (done (error needs_review))
        (with_cloudflare user s.row now s.row.cloudflare_id) s tt
        (with_cloudflare-EndsIn user s.row now s refl s.row.cloudflare_id)))
