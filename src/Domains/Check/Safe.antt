-- ===== src/Domains/Check/Safe.antt =====
-- Checking a hostname keeps to the life of the claim, whatever Cloudflare, the probe and the database
-- answer, and whatever else moves meanwhile.
use htmlradar.Common.{
  ◌≢◌, refl, ℕ, Text, Option, none, some, [], ◌∷◌, Bool, true, false, ◌&&◌, if◌then◌else◌, inl, inr,
}
use htmlradar.Proxy.World.{retired}
use htmlradar.Domains.Store.{
  Row, HostnameState, Tried, got, threw, Wrote, matched, unmatched, db_failed, ask, restart, ◌>>=◌,
}
use htmlradar.Domains.Claims.{
  Message, waiting_for_certificate, waiting_for_dns, same_state, create_or_adopt_hostname, reaches,
}
use htmlradar.Domains.Claims.Safe.{store_hostname_id-IsSafe, create_or_adopt_hostname-IsQuiet}
use htmlradar.Domains.Check.{
  default_made, promoted, promote, still_waiting, check_visited, check_current, check_failed,
  check_restarted, check_stated, check_stored, check_kept, check_created, with_cloudflare,
  check_domain, is_active, is_stalled, waiting_text,
}
use htmlradar.Domains.Lifecycle.{IsSafe, IsSafe-after, if-IsSafe, noted, goes_live}
use htmlradar.Domains.Lifecycle.Writes.{open_state, not-retired}

default_made-IsSafe : (w : Wrote) → IsSafe false (default_made w)
unfolding default_made
default_made-IsSafe (matched r) = tt
default_made-IsSafe unmatched = tt
default_made-IsSafe (db_failed m) = tt

promoted-IsSafe : (user : Text) (domain : Row) (w : Wrote) → IsSafe false (promoted user domain w)
unfolding promoted
promoted-IsSafe user domain (matched r) = (
  λ s c k e. inl refl,
  (false, λ s e. inl refl, λ r. default_made-IsSafe (matched r)),
  default_made-IsSafe unmatched,
  λ m. default_made-IsSafe (db_failed m),
)
promoted-IsSafe user domain unmatched = tt
promoted-IsSafe user domain (db_failed m) = tt

module _ (user : Text) (domain : Row) (now : ℕ) (o : domain.state ≢ retired) where
  promote-IsSafe : (current : HostnameState) → IsSafe false (promote user domain current now)
  unfolding promote
  promote-IsSafe current = (
    λ s c k e.
        inr (goes_live (open_state domain.id domain.state s o e) refl refl (refl, refl, refl)),
    (false, λ s e. inl refl, λ r. promoted-IsSafe user domain (matched r)),
    promoted-IsSafe user domain unmatched,
    λ m. promoted-IsSafe user domain (db_failed m),
  )

  still_waiting-IsSafe :
      (current : HostnameState) (text : Text) (m : Message)
      → IsSafe false (still_waiting domain current text m now)
  unfolding still_waiting
  still_waiting-IsSafe current text message = (
    λ s c k e. inr (noted (open_state domain.id domain.state s o e) refl refl (refl, refl, refl)),
    (false, λ s e. inl refl, λ r. tt),
    tt,
    λ m. tt,
  )

  check_failed-IsSafe : (m : Text) → IsSafe false (check_failed domain m now)
  unfolding check_failed
  check_failed-IsSafe message = (
    λ s c k e. inr (noted (open_state domain.id domain.state s o e) refl refl (refl, refl, refl)),
    (false, λ s e. inl refl, λ r. tt),
    tt,
    λ m. tt,
  )

  check_visited-IsSafe :
      (current : HostnameState) (b : Bool) → IsSafe false (check_visited user domain current now b)
  unfolding check_visited
  check_visited-IsSafe current true = promote-IsSafe current
  check_visited-IsSafe current false = still_waiting-IsSafe current _ waiting_for_dns

  check_current-IsSafe :
      (current : HostnameState) → IsSafe false (check_current user domain current now)
  unfolding check_current
  check_current-IsSafe current =
      let message = if is_active current.status then waiting_for_certificate else waiting_for_dns in
      if-IsSafe false (is_active current.status && is_active current.ssl_status) _ _
        (λ b. λ v. check_visited-IsSafe current (reaches domain.id v))
        (λ b. still_waiting-IsSafe current (waiting_text message) message)

  check_restarted-IsSafe :
      (x : Tried HostnameState) → IsSafe false (check_restarted user domain now x)
  unfolding check_restarted
  check_restarted-IsSafe (threw m) = check_failed-IsSafe m
  check_restarted-IsSafe (got current) = check_current-IsSafe current

  check_stated-IsSafe :
      (id : Text) (x : Tried HostnameState) → IsSafe false (check_stated user domain id now x)
  unfolding check_stated
  check_stated-IsSafe id (threw m) = check_failed-IsSafe m
  check_stated-IsSafe id (got state) =
      if-IsSafe false (is_stalled state.ssl_status)
        (ask (restart id) (check_restarted user domain now)) (check_current user domain state now)
        (λ b. check_restarted-IsSafe) (λ b. check_current-IsSafe state)

  check_kept-IsSafe : (id : Text) (b : Bool) → IsSafe false (check_kept user domain id now b)
  unfolding check_kept check_stored
  check_kept-IsSafe id true = check_stated-IsSafe id
  check_kept-IsSafe id false = tt

  check_created-IsSafe : (x : Tried HostnameState) → IsSafe false (check_created user domain now x)
  unfolding check_created
  check_created-IsSafe (threw m) = check_failed-IsSafe m
  check_created-IsSafe (got created) =
      store_hostname_id-IsSafe domain.id domain.state created (λ r. r)
        (check_kept user domain created.id now) o (λ r. (refl, refl, (refl, refl, refl)))
        (check_kept-IsSafe created.id)

  fresh-IsSafe :
      IsSafe false (create_or_adopt_hostname domain.hostname >>= check_created user domain now)
  fresh-IsSafe =
      IsSafe-after false (create_or_adopt_hostname domain.hostname) (check_created user domain now)
        (create_or_adopt_hostname-IsQuiet domain.hostname) check_created-IsSafe

  with_cloudflare-IsSafe : (x : Option Text) → IsSafe false (with_cloudflare user domain now x)
  unfolding with_cloudflare check_stored
  with_cloudflare-IsSafe (some (c ∷ id)) = check_stated-IsSafe (c ∷ id)
  with_cloudflare-IsSafe (some []) = fresh-IsSafe
  with_cloudflare-IsSafe none = fresh-IsSafe

pub check_domain-IsSafe :
    (now : ℕ) (user : Text) (domain : Row) → IsSafe false (check_domain now user domain)
unfolding check_domain
check_domain-IsSafe now user domain =
    if-IsSafe false (same_state domain.state retired) _ _ (λ b. tt)
      λ b.
        if-IsSafe false domain.previous_owner_review _
          (with_cloudflare user domain now domain.cloudflare_id) (λ c. tt)
          λ c.
            with_cloudflare-IsSafe user domain now (not-retired domain.state b) domain.cloudflare_id
