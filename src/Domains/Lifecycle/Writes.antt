-- ===== src/Domains/Lifecycle/Writes.antt =====
-- What the guard of an UPDATE says of the row that it matches.
use htmlradar.Common.{◌≡◌, ◌≢◌, Text, true, false, arith}
use htmlradar.Proxy.World.{DomainState, retired}
use htmlradar.Domains.Store.{Store}
use htmlradar.Domains.Claims.{same_state, row_in}

pub same_state_sound : (a b : DomainState) → same_state a b ≡ true → a ≡ b
same_state_sound a b e = ground arith

pub row_in_state :
    (id : Text) (from : DomainState) (s : Store) → row_in id from s ≡ true → s.row.state ≡ from
row_in_state id from s e = same_state_sound s.row.state from (ground arith)

pub open_state :
    (id : Text) (from : DomainState) (s : Store)
    → from ≢ retired
    → row_in id from s ≡ true
    → s.row.state ≢ retired
open_state id from s n e h = n (cc (row_in_state id from s e))

pub not-retired : (d : DomainState) → same_state d retired ≡ false → d ≢ retired
not-retired d e h = ground arith
