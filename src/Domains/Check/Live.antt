-- ===== src/Domains/Check/Live.antt =====
-- A check of a hostname that works brings it live.
use htmlradar.Common.{
  contains, ◌≡◌, refl, ℕ, Text, codes, Option, some, ◌∷◌, Bool, true, false, ◌&&◌, if◌then◌else◌,
  same, same_refl, same_sound, starts_with, arith,
}
use htmlradar.Proxy.World.{DomainState, live, retired}
use htmlradar.Domains.Store.{
  Row, Store, HostnameState, Tried, got, Wrote, matched, unmatched, db_failed, Answers, fine, Prog,
  done,
}
use htmlradar.Domains.Claims.{
  Outcome, ok, error, same_state, reaches, was_disconnected, needs_review,
}
use htmlradar.Domains.Check.{
  default_made, default_write, promote_write, promoted, promote, check_visited, check_current,
  check_stated, check_stored, with_cloudflare, check_domain, is_active, is_stalled,
}
use htmlradar.Domains.Alone.{complete, EndsIn, write-EndsIn, complete-matched}

-- The owner is told that the hostname is live, and it is.
abbrev pub IsLive : Outcome → Store → Type 0
IsLive (ok d m) t = (d ≡ live) × (t.row.state ≡ live)
IsLive (error r) t = ⊥

default_made-IsLive :
    (s : Store) (w : Wrote) → s.row.state ≡ live → EndsIn IsLive (default_made w) s
unfolding default_made
default_made-IsLive s (matched r) e = (refl, e)
default_made-IsLive s unmatched e = (refl, e)
default_made-IsLive s (db_failed m) e = (refl, e)

promoted-IsLive :
    (user : Text) (domain : Row) (s : Store)
    → s.row.state ≡ live
    → (r : Row) → EndsIn IsLive (promoted user domain (matched r)) s
unfolding promoted
promoted-IsLive user domain s e r =
    let made = default_write user domain.id in
    write-EndsIn IsLive made default_made s
      (λ g. default_made-IsLive (made.change s) (matched (made.change s).row) e)
      (λ g. default_made-IsLive s unmatched e) (λ m. default_made-IsLive s (db_failed m) e)
      (λ g m. default_made-IsLive (made.change s) (db_failed m) e)

same_state_refl : (d : DomainState) → same_state d d ≡ true
same_state_refl d = ground arith

active-is_stalled : (t : Text) → same t (codes "active") ≡ true → is_stalled t ≡ false
unfolding contains starts_with
active-is_stalled t e = rw (same_sound t (codes "active") e) refl

module _ (o : ℕ → Answers) (now : ℕ) (user : Text) (s : Store) (f : (o 2).fault ≡ fine) where
  abbrev EndsLive : ℕ → Prog Outcome → Type 0
  EndsLive i p = IsLive (complete o i p s).0 (complete o i p s).1

  visited-IsLive :
      (current : HostnameState) (b : Bool)
      → b ≡ true
      → EndsLive 2 (check_visited user s.row current now b)
  unfolding check_visited promote
  visited-IsLive current true e =
      let brought = promote_write s.row current now in
      complete-matched IsLive o 2 brought (promoted user s.row) s f
        (ground (arith, same_refl s.row.id, same_state_refl s.row.state))
        (promoted-IsLive user s.row (brought.change s) refl (brought.change s).row)
  visited-IsLive current false e = ground arith

  current-IsLive :
      (current : HostnameState)
      → is_active current.status && is_active current.ssl_status ≡ true
      → reaches s.row.id (o 1).on_visit ≡ true
      → EndsLive 1 (check_current user s.row current now)
  unfolding check_current complete
  current-IsLive current a r = rw a (visited-IsLive current (reaches s.row.id (o 1).on_visit) r)

  stated-IsLive :
      (id : Text) (x : Tried HostnameState) (current : HostnameState)
      → x ≡ got current
      → is_stalled current.ssl_status ≡ false
      → is_active current.status && is_active current.ssl_status ≡ true
      → reaches s.row.id (o 1).on_visit ≡ true
      → EndsLive 1 (check_stated user s.row id now x)
  unfolding check_stated
  stated-IsLive id x current e n a r = rw (e, n) (current-IsLive current a r)

  asked-IsLive :
      (x : Option Text) (c : ℕ) (id : Text) (current : HostnameState)
      → x ≡ some (c ∷ id)
      → (o 0).on_ask ≡ got current
      → is_stalled current.ssl_status ≡ false
      → is_active current.status && is_active current.ssl_status ≡ true
      → reaches s.row.id (o 1).on_visit ≡ true
      → EndsLive 0 (with_cloudflare user s.row now x)
  unfolding with_cloudflare check_stored complete
  asked-IsLive x c id current h e n a r = rw h (stated-IsLive (c ∷ id) (o 0).on_ask current e n a r)

  else-IsLive :
      (b : Bool) (p q : Prog Outcome) → b ≡ false → EndsLive 0 q → EndsLive 0 (if b then p else q)
  else-IsLive b p q e h = rw e h

-- When nothing else moves, a claim that is not retired or under review and has a hostname at Cloudflare
-- is live at the end of a check, and its owner is told so, if Cloudflare answers that the hostname and
-- its certificate are active, the hostname shows the claim and the first write is not lost; whatever
-- the later write is answered.
pub check_domain-IsLive :
    (o : ℕ → Answers) (now : ℕ) (user : Text) (s : Store) (c : ℕ) (id : Text)
    (current : HostnameState)
    → same_state s.row.state retired ≡ false
    → s.row.previous_owner_review ≡ false
    → s.row.cloudflare_id ≡ some (c ∷ id)
    → (o 0).on_ask ≡ got current
    → same current.status (codes "active") ≡ true
    → same current.ssl_status (codes "active") ≡ true
    → reaches s.row.id (o 1).on_visit ≡ true
    → (o 2).fault ≡ fine
    → IsLive
        (complete o 0 (check_domain now user s.row) s).0
        (complete o 0 (check_domain now user s.row) s).1
unfolding check_domain
check_domain-IsLive o now user s c id current d p h e a b r f =
    let asked =
      asked-IsLive o now user s f s.row.cloudflare_id c id current h e (active-is_stalled _ b)
        (rw (a, b) refl) r in
    else-IsLive o now user s f (same_state s.row.state retired) (done (error was_disconnected)) _ d
      (else-IsLive o now user s f s.row.previous_owner_review (done (error needs_review))
        (with_cloudflare user s.row now s.row.cloudflare_id) p asked)
