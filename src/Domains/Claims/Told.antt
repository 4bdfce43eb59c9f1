-- ===== src/Domains/Claims/Told.antt =====
-- Storing a hostname's id leaves the state of the row as it was.
use htmlradar.Common.{◌≡◌, refl, Text, Bool, true, false}
use htmlradar.Proxy.World.{DomainState}
use htmlradar.Domains.Store.{Store, HostnameState, Tried, got, threw, Prog, ◌>>=◌}
use htmlradar.Domains.Claims.{
  store_hostname_id, store_write, was_stored, orphan_gone, delete_twice, delete_again,
}
use htmlradar.Domains.Alone.{EndsIn, write-EndsIn}

module _ {A : Type 0} (fits : A → Store → Type 0) (k : Bool → Prog A) (s : Store) where
  gone-EndsIn :
      (x : Tried (Unit {0})) → EndsIn fits (k false) s → EndsIn fits (orphan_gone x >>= k) s
  unfolding orphan_gone ◌>>=◌
  gone-EndsIn (got u) h = h
  gone-EndsIn (threw m) h = h

  again-EndsIn :
      (id : Text) (x : Tried (Unit {0}))
      → EndsIn fits (k false) s
      → EndsIn fits ((delete_again id x >>= orphan_gone) >>= k) s
  unfolding delete_again orphan_gone ◌>>=◌
  again-EndsIn id (got u) h = h
  again-EndsIn id (threw m) h = λ x. gone-EndsIn x h

pub store_hostname_id-EndsIn :
    {A : Type 0} (fits : A → Store → Type 0) (k : Bool → Prog A) (s : Store) (id : Text)
    (from : DomainState) (state : HostnameState)
    → ((t : Store) → t.row.state ≡ s.row.state → (b : Bool) → EndsIn fits (k b) t)
    → EndsIn fits (store_hostname_id id from state (λ r. r) >>= k) s
unfolding store_hostname_id was_stored delete_twice ◌>>=◌
store_hostname_id-EndsIn fits k s id from state h =
    let stored = store_write id from state (λ r. r) in
    write-EndsIn fits stored (λ w. was_stored state w >>= k) s (λ g. h (stored.change s) refl true)
      (λ g. λ x. again-EndsIn fits k s state.id x (h s refl false))
      (λ m. λ x. again-EndsIn fits k s state.id x (h s refl false))
      (λ g m.
        λ x. again-EndsIn fits k (stored.change s) state.id x (h (stored.change s) refl false))
