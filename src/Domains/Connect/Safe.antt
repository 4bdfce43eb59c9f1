-- ===== src/Domains/Connect/Safe.antt =====
-- Connecting a hostname keeps to the life of the claim.
use htmlradar.Common.{
  ◌≢◌, refl, ℕ, Text, Option, none, some, [], ◌∷◌, Bool, true, false, inl, arith, not, inr,
}
use htmlradar.Proxy.World.{pending, retired}
use htmlradar.Domains.Store.{
  HostnameState, Tried, got, threw, Inserted, inserted, no_row, insert_failed,
}
use htmlradar.Domains.Hostnames.{
  Settings, Problem, custom_domains_enabled, pilot_owners, describe_hostname_problem,
  normalize_hostname,
}
use htmlradar.Domains.Claims.{Refusal, create_or_adopt_hostname}
use htmlradar.Domains.Claims.Safe.{store_hostname_id-IsSafe, create_or_adopt_hostname-IsQuiet}
use htmlradar.Domains.Connect.{
  note_statuses, connect_stored, connect_created, connect_inserted, connect_refused, connect_row,
  connect_unless, connect_domain, describe_enrolment_error, closed_pilot,
}
use htmlradar.Domains.Lifecycle.{IsSafe, IsSafe-after, if-IsSafe, noted}
use htmlradar.Domains.Lifecycle.Writes.{open_state}

pending-open : pending ≢ retired
pending-open e = ground arith

connect_stored-IsSafe : (b : Bool) → IsSafe false (connect_stored b)
unfolding connect_stored
connect_stored-IsSafe true = tt
connect_stored-IsSafe false = tt

connect_created-IsSafe :
    (now : ℕ) (id : Text) (x : Tried HostnameState) → IsSafe false (connect_created now id x)
unfolding connect_created
connect_created-IsSafe now id (got state) =
    store_hostname_id-IsSafe id pending state (note_statuses state now) connect_stored pending-open
      (λ r. (refl, refl, (refl, refl, refl))) connect_stored-IsSafe
connect_created-IsSafe now id (threw m) = (
  λ s c k e. inr (noted (open_state id pending s pending-open e) refl refl (refl, refl, refl)),
  (false, λ s e. inl refl, λ r. tt),
  tt,
  λ m. tt,
)

connect_refused-IsSafe : (m : Text) (x : Option Refusal) → IsSafe false (connect_refused m x)
unfolding connect_refused
connect_refused-IsSafe m (some k) = tt
connect_refused-IsSafe m none = tt

connect_row-IsSafe :
    (now : ℕ) (hostname : Text) (x : Inserted) → IsSafe false (connect_row now hostname x)
unfolding connect_row connect_inserted
connect_row-IsSafe now hostname (inserted []) = tt
connect_row-IsSafe now hostname (inserted (c ∷ id)) =
    IsSafe-after false (create_or_adopt_hostname hostname) (connect_created now (c ∷ id))
      (create_or_adopt_hostname-IsQuiet hostname) (connect_created-IsSafe now (c ∷ id))
connect_row-IsSafe now hostname no_row = tt
connect_row-IsSafe now hostname (insert_failed code m) =
    connect_refused-IsSafe m (describe_enrolment_error code m)

connect_unless-IsSafe :
    (now : ℕ) (user hostname : Text) (x : Option Problem)
    → IsSafe false (connect_unless now user hostname x)
unfolding connect_unless
connect_unless-IsSafe now user hostname (some p) = tt
connect_unless-IsSafe now user hostname none = connect_row-IsSafe now hostname

pub connect_domain-IsSafe :
    (e : Settings) (now : ℕ) (user raw : Text) → IsSafe false (connect_domain e now user raw)
unfolding connect_domain
connect_domain-IsSafe e now user raw =
    if-IsSafe false (not (custom_domains_enabled e)) _ _ (λ b. tt)
      λ b.
        if-IsSafe false (closed_pilot (pilot_owners e) user) _ _ (λ c. tt)
          λ c.
            connect_unless-IsSafe now user (normalize_hostname raw)
              (describe_hostname_problem e raw (some user))
