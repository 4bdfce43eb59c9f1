-- ===== src/Domains/Tests.antt =====
-- Runs of the programs on one claim.
use htmlradar.Common.{
  contains, ends_with, ◌≡◌, refl, ℕ, Text, codes, none, some, List, [], ◌∷◌, ◌++◌, true, false,
  arith, is_some, same, trim, to_lower, split, starts_with, zero, suc,
}
use htmlradar.Proxy.World.{pending, live, disconnected, retired}
use htmlradar.Domains.Store.{
  Row, Store, Answers, got, page, described, removal, inserted, HostnameState, fine, lost_after,
}
use htmlradar.Domains.Hostnames.{
  Settings, normalize_hostname, short_name, registrable_domain, is_pilot_hostname,
  describe_hostname_problem, pilot_owners,
}
use htmlradar.Domains.Hostnames.Records.{short_name-registrable_domain}
use htmlradar.Domains.Claims.{reaches}
use htmlradar.Domains.Check.{check_domain}
use htmlradar.Domains.Check.Told.{check_domain-IsShown, IsShown}
use htmlradar.Domains.Check.Live.{check_domain-IsLive, IsLive}
use htmlradar.Domains.Disconnect.{disconnect_domain}
use htmlradar.Domains.Disconnect.Told.{disconnect_domain-IsTold, IsTold}
use htmlradar.Domains.Monitor.{monitor_check}
use htmlradar.Domains.Monitor.Settled.{settled, failed_once, standing_of}
use htmlradar.Domains.Lifecycle.{IsConsistent, IsHistory, IsSwept, newest}
use htmlradar.Domains.Alone.{complete}
use htmlradar.Domains.Schedule.{checking, disconnecting, cycling, Move, begins, answered, run}
use htmlradar.Domains.Schedule.Runs.{services-refine, retired-forever, rows}

abbrev owner : Text
owner = codes "u1"

abbrev pending_row : Row
pending_row = record {
  id = codes "d1";
  owner_id = owner;
  hostname = codes "decks.acme.com";
  state = pending;
  cloudflare_id = some (codes "cf1");
  cloudflare_status = none;
  ssl_status = none;
  verified_at = none;
  last_checked_at = none;
  last_error = none;
  consecutive_failures = none;
  cloudflare_deleted_at = none;
  retired_at = none;
  previous_owner_review = false;
}

abbrev store_of : Row → Store
store_of r = record { row = r; default_id = none }

abbrev retired_row : Row
retired_row = record pending_row { state = retired; retired_at = some 3 }

abbrev live_row : Row
live_row = record pending_row { state = live; consecutive_failures = some 1 }

abbrev active : HostnameState
active = record { id = codes "cf1"; status = codes "active"; ssl_status = codes "active" }

-- Everything works.
abbrev good : Answers
good = record {
  on_ask = got active;
  on_find = got (some active);
  on_delete = got tt;
  on_visit = page 200 (some (codes "d1")) (codes "htmlradar-domain:d1") 19;
  on_look = described (some (codes "active")) (some (codes "active"));
  on_remove = removal 200;
  on_insert = inserted (codes "d1");
  fault = fine;
}

pending-IsConsistent : IsConsistent pending_row
pending-IsConsistent = (λ e. ground arith, λ e. ground arith)

retired-IsConsistent : IsConsistent retired_row
retired-IsConsistent = (λ e. refl, λ e. refl)

-- A check is about to bring the hostname live when its owner disconnects it.
abbrev overtaken : List Move
overtaken =
    begins (checking 5 owner pending_row)
    ∷ answered 0 good
    ∷ answered 0 good
    ∷ begins (disconnecting 6 owner (codes "d1"))
    ∷ answered 0 good
    ∷ answered 0 good
    ∷ answered 1 good
    ∷ []

overtaken_state :
    (run overtaken (record { agents = []; store = store_of pending_row })).store.row.state ≡ retired
unfolding run contains starts_with same trim
overtaken_state = refl

services-refine_example :
    IsHistory pending_row (rows overtaken (record { agents = []; store = store_of pending_row }))
    × (newest pending_row (rows overtaken (record { agents = []; store = store_of pending_row }))
        ≡ (run overtaken (record { agents = []; store = store_of pending_row })).store.row)
services-refine_example = services-refine overtaken (store_of pending_row) pending-IsConsistent

-- What goes on behind the retirement: the check's last call is still open, and a cycle reads the row as
-- it was before.
abbrev too_late : List Move
too_late =
    begins (cycling 100000 0 pending_row)
    ∷ answered 0 good
    ∷ answered 0 good
    ∷ answered 0 good
    ∷ answered 1 good
    ∷ answered 2 good
    ∷ []

retired-forever_example :
    IsSwept
      (run overtaken (record { agents = []; store = store_of pending_row })).store.row
      (run too_late
        (run overtaken (record { agents = []; store = store_of pending_row }))).store.row
    × ((run too_late
          (run overtaken (record { agents = []; store = store_of pending_row }))).store.row.state
        ≡ retired)
    × (is_some
          (run too_late (
            run overtaken
              (record { agents = []; store = store_of pending_row }))).store.row.retired_at
        ≡ true)
retired-forever_example =
    retired-forever overtaken too_late (store_of pending_row) pending-IsConsistent overtaken_state

-- The database loses the answer of the second write.
abbrev shaky : ℕ → Answers
shaky zero = good
shaky (suc i) = record good { fault = lost_after }

disconnect_domain-IsTold_example :
    IsTold
      (complete shaky 0 (disconnect_domain 6 owner (codes "d1")) (store_of pending_row)).0
      (complete shaky 0 (disconnect_domain 6 owner (codes "d1")) (store_of pending_row)).1
disconnect_domain-IsTold_example =
    disconnect_domain-IsTold shaky 6 (store_of pending_row) pending-IsConsistent

check_domain-IsShown_example :
    IsShown
      (complete (λ i. good) 0 (check_domain 5 owner pending_row) (store_of pending_row)).0
      (complete (λ i. good) 0 (check_domain 5 owner pending_row) (store_of pending_row)).1
check_domain-IsShown_example = check_domain-IsShown (λ i. good) 5 owner (store_of pending_row)

-- A state is told, and what is said of it is more than nothing.
told_live :
    IsShown
      (complete (λ i. good) 0 (check_domain 5 owner pending_row) (store_of pending_row)).0
      (complete (λ i. good) 0 (check_domain 5 owner pending_row) (store_of pending_row)).1
    ≡ (live ≡ live)
unfolding check_domain complete same trim contains starts_with
told_live = refl

reaches_example : reaches (codes "d1") good.on_visit ≡ true
unfolding same trim
reaches_example = refl

active_example : same (codes "active") (codes "active") ≡ true
unfolding same
active_example = refl

check_domain-IsLive_example :
    IsLive
      (complete (λ i. good) 0 (check_domain 5 owner pending_row) (store_of pending_row)).0
      (complete (λ i. good) 0 (check_domain 5 owner pending_row) (store_of pending_row)).1
check_domain-IsLive_example =
    check_domain-IsLive (λ i. good) 5 owner (store_of pending_row) b'c' (codes "f1") active refl
      refl refl refl active_example active_example reaches_example refl

-- The certificate of a live hostname has gone, for the second time.
abbrev gone : Answers
gone = record good { on_look = described (some (codes "deleted")) (some (codes "active")) }

second_failure :
    (settled 100000
      (complete (λ i. gone) 0 (monitor_check live_row) (store_of live_row)).0
      (standing_of live_row)).state
    ≡ disconnected
unfolding complete monitor_check settled failed_once same trim contains starts_with
second_failure = refl

abbrev settings : Settings
settings = record {
  custom_domains_enabled = some (codes "true");
  custom_domains_pilot_owners = none;
  share_host = codes "htmlradar.page";
}

not_pilot :
    is_pilot_hostname settings (normalize_hostname (codes "https://Decks.Acme.co.uk/a")) ≡ false
unfolding is_pilot_hostname pilot_owners same to_lower trim split
not_pilot = refl

accepted : describe_hostname_problem settings (codes "https://Decks.Acme.co.uk/a") none ≡ none
unfolding describe_hostname_problem normalize_hostname same to_lower trim starts_with split contains
    ends_with
accepted = refl

short_name-registrable_domain_example :
    short_name (normalize_hostname (codes "https://Decks.Acme.co.uk/a"))
      ++ b'.' ∷ registrable_domain (normalize_hostname (codes "https://Decks.Acme.co.uk/a"))
    ≡ normalize_hostname (codes "https://Decks.Acme.co.uk/a")
short_name-registrable_domain_example =
    short_name-registrable_domain settings (codes "https://Decks.Acme.co.uk/a") none not_pilot
      accepted

-- A check has made the hostname live; its owner disconnects it, and between the two writes of that the
-- check sets the default again.
abbrev stale_default : List Move
stale_default =
    begins (checking 5 owner pending_row)
    ∷ answered 0 good
    ∷ answered 0 good
    ∷ answered 0 good
    ∷ begins (disconnecting 6 owner (codes "d1"))
    ∷ answered 0 good
    ∷ answered 1 good
    ∷ answered 0 good
    ∷ []

stale_default_left :
    (run stale_default (record { agents = []; store = store_of pending_row })).store.default_id
    ≡ some (codes "d1")
unfolding run contains starts_with same trim
stale_default_left = refl

stale_default_state :
    (run stale_default (record { agents = []; store = store_of pending_row })).store.row.state
    ≡ retired
unfolding run contains starts_with same trim
stale_default_state = refl
