-- ===== src/Domains/Claims/Safe.antt =====
-- Creating a hostname writes nothing; storing its id is one write that keeps to the life of a claim.
use htmlradar.Common.{◌≡◌, ◌≢◌, refl, Text, Option, none, some, Bool, true, false, inl, inr}
use htmlradar.Proxy.World.{DomainState, retired}
use htmlradar.Domains.Store.{Row, HostnameState, Tried, got, threw, Prog, ◌>>=◌}
use htmlradar.Domains.Claims.{
  store_hostname_id, create_or_adopt_hostname, delete_twice, delete_again, or_first, adopt,
  created_or, orphan_gone, was_stored,
}
use htmlradar.Domains.Lifecycle.{IsSafe, IsQuiet, noted, IsSameClaim}
use htmlradar.Domains.Lifecycle.Writes.{open_state}

delete_again-IsQuiet : (id : Text) (x : Tried (Unit {0})) → IsQuiet (delete_again id x)
unfolding delete_again
delete_again-IsQuiet id (got u) = tt
delete_again-IsQuiet id (threw m) = λ y. tt

pub delete_twice-IsQuiet : (id : Text) → IsQuiet (delete_twice id)
unfolding delete_twice
delete_twice-IsQuiet id = delete_again-IsQuiet id

or_first-IsQuiet : (first : Text) (x : Tried HostnameState) → IsQuiet (or_first first x)
unfolding or_first
or_first-IsQuiet first (got s) = tt
or_first-IsQuiet first (threw m) = tt

adopt-IsQuiet :
    (hostname first : Text) (x : Tried (Option HostnameState)) → IsQuiet (adopt hostname first x)
unfolding adopt
adopt-IsQuiet hostname first (got (some s)) = tt
adopt-IsQuiet hostname first (got none) = or_first-IsQuiet first
adopt-IsQuiet hostname first (threw m) = or_first-IsQuiet first

created_or-IsQuiet : (hostname : Text) (x : Tried HostnameState) → IsQuiet (created_or hostname x)
unfolding created_or
created_or-IsQuiet hostname (got s) = tt
created_or-IsQuiet hostname (threw first) = adopt-IsQuiet hostname first

pub create_or_adopt_hostname-IsQuiet :
    (hostname : Text) → IsQuiet (create_or_adopt_hostname hostname)
unfolding create_or_adopt_hostname
create_or_adopt_hostname-IsQuiet hostname = created_or-IsQuiet hostname

orphan-IsSafe :
    {A : Type 0} (k : Bool → Prog A)
    → ((b : Bool) → IsSafe false (k b))
    → (x : Tried (Unit {0})) → IsSafe false (orphan_gone x >>= k)
unfolding orphan_gone ◌>>=◌
orphan-IsSafe k h (got u) = h false
orphan-IsSafe k h (threw m) = h false

again-IsSafe :
    {A : Type 0} (id : Text) (k : Bool → Prog A)
    → ((b : Bool) → IsSafe false (k b))
    → (x : Tried (Unit {0})) → IsSafe false ((delete_again id x >>= orphan_gone) >>= k)
unfolding delete_again orphan_gone ◌>>=◌
again-IsSafe id k h (got u) = h false
again-IsSafe id k h (threw m) = orphan-IsSafe k h

pub store_hostname_id-IsSafe :
    {A : Type 0} (id : Text) (from : DomainState) (state : HostnameState) (extra : Row → Row)
    (k : Bool → Prog A)
    → from ≢ retired
    → ((r : Row)
        → ((extra r).state ≡ r.state)
          × ((extra r).retired_at ≡ r.retired_at)
          × IsSameClaim r (extra r))
    → ((b : Bool) → IsSafe false (k b))
    → IsSafe false (store_hostname_id id from state extra >>= k)
unfolding store_hostname_id was_stored delete_twice ◌>>=◌
store_hostname_id-IsSafe id from state extra k n plain h = (
  λ s c r e.
      let given = record s.row { cloudflare_id = some state.id } in
      inr (noted (open_state id from s n e) (plain given).0 (plain given).1 (plain given).2),
  (false, λ s e. inl refl, λ r. h true),
  again-IsSafe state.id k h,
  λ m. again-IsSafe state.id k h,
)
