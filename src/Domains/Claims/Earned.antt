-- ===== src/Domains/Claims/Earned.antt =====
-- Storing a hostname's id never brings the hostname live.
use htmlradar.Common.{Text, Bool, true, false, inr}
use htmlradar.Proxy.World.{DomainState}
use htmlradar.Domains.Store.{
  Visit, HostnameState, Tried, got, threw, Wrote, matched, unmatched, db_failed, Prog, ◌>>=◌,
}
use htmlradar.Domains.Claims.{
  store_hostname_id, was_stored, orphan_gone, delete_twice, delete_again,
}
use htmlradar.Domains.Evidence.{IsEarned}

module _ {A : Type 0} (shows : Visit → Bool) (active reached : Bool) (k : Bool → Prog A)
    (h : (b : Bool) → IsEarned shows active reached (k b)) where
  gone-IsEarned : (x : Tried (Unit {0})) → IsEarned shows active reached (orphan_gone x >>= k)
  unfolding orphan_gone ◌>>=◌
  gone-IsEarned (got u) = h false
  gone-IsEarned (threw m) = h false

  again-IsEarned :
      (id : Text) (x : Tried (Unit {0}))
      → IsEarned shows active reached ((delete_again id x >>= orphan_gone) >>= k)
  unfolding delete_again orphan_gone ◌>>=◌
  again-IsEarned id (got u) = h false
  again-IsEarned id (threw m) = gone-IsEarned

  was_stored-IsEarned :
      (state : HostnameState) (w : Wrote) → IsEarned shows active reached (was_stored state w >>= k)
  unfolding was_stored delete_twice ◌>>=◌
  was_stored-IsEarned state (matched r) = h true
  was_stored-IsEarned state unmatched = again-IsEarned state.id
  was_stored-IsEarned state (db_failed m) = again-IsEarned state.id

  pub store_hostname_id-IsEarned :
      (id : Text) (from : DomainState) (state : HostnameState)
      → IsEarned shows active reached (store_hostname_id id from state (λ r. r) >>= k)
  unfolding store_hostname_id ◌>>=◌
  store_hostname_id-IsEarned id from state = (inr (λ s e. e), was_stored-IsEarned state)
