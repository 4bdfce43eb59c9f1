-- ===== src/Domains/Disconnect/Told.antt =====
-- What disconnecting tells the owner is what has happened.
use htmlradar.Common.{◌≡◌, refl, ℕ, Text, Option, none, some, [], ◌∷◌, false, same_refl, arith}
use htmlradar.Proxy.World.{retired}
use htmlradar.Domains.Store.{Store, Answers, Tried, got, threw, done, ◌>>=◌}
use htmlradar.Domains.Claims.{
  could_not_disconnect, is_disconnected, Outcome, ok, error, delete_twice, delete_again,
}
use htmlradar.Domains.Disconnect.{
  cleaned, clean_up, was_retired, retire, retire_write, forget_default_write, deleted_write,
  disconnect_domain,
}
use htmlradar.Domains.Lifecycle.{IsConsistent}
use htmlradar.Domains.Alone.{complete, EndsIn, complete-EndsIn, write-EndsIn}

-- The answer is that the hostname is disconnected, and it is; or that it could not be.
abbrev pub IsTold : Outcome → Store → Type 0
IsTold (ok d m) t = (d ≡ retired) × (t.row.state ≡ retired)
IsTold (error r) t = r ≡ could_not_disconnect

cleaned-EndsIn :
    (user id : Text) (now : ℕ) (s : Store) (x : Tried (Unit {0}))
    → s.row.state ≡ retired
    → EndsIn IsTold (cleaned user id now x) s
unfolding cleaned
cleaned-EndsIn user id now s (got u) e =
    write-EndsIn IsTold (deleted_write user id now) (λ _. done (ok retired is_disconnected)) s
      (λ g. (refl, e)) (λ g. (refl, e)) (λ m. (refl, e)) (λ g m. (refl, e))
cleaned-EndsIn user id now s (threw m) e = (refl, e)

again-EndsIn :
    (user id : Text) (now : ℕ) (s : Store) (h : Text) (x : Tried (Unit {0}))
    → s.row.state ≡ retired
    → EndsIn IsTold (delete_again h x >>= cleaned user id now) s
unfolding delete_again ◌>>=◌
again-EndsIn user id now s h (got u) e = cleaned-EndsIn user id now s (got u) e
again-EndsIn user id now s h (threw m) e = λ x. cleaned-EndsIn user id now s x e

clean_up-EndsIn :
    (user id : Text) (now : ℕ) (s : Store) (x : Option Text)
    → s.row.state ≡ retired
    → EndsIn IsTold (clean_up user id now x) s
unfolding clean_up delete_twice ◌>>=◌
clean_up-EndsIn user id now s (some (c ∷ t)) e = λ x. again-EndsIn user id now s (c ∷ t) x e
clean_up-EndsIn user id now s (some []) e = (refl, e)
clean_up-EndsIn user id now s none e = (refl, e)

-- A claim of the user that the retirement does not match is retired already.
passed_over :
    (now : ℕ) (s : Store)
    → IsConsistent s.row
    → (retire_write s.row.owner_id s.row.id now).guard s ≡ false
    → s.row.state ≡ retired
passed_over now s c f =
    let it = same_refl s.row.id in
    let own = same_refl s.row.owner_id in c.1 (ground (arith, it, own))

retire-EndsIn :
    (now : ℕ) (s : Store)
    → IsConsistent s.row
    → EndsIn IsTold (retire now s.row.owner_id s.row.id) s
unfolding retire was_retired
retire-EndsIn now s c =
    write-EndsIn IsTold (retire_write s.row.owner_id s.row.id now)
      (was_retired now s.row.owner_id s.row.id) s
      (λ g. clean_up-EndsIn s.row.owner_id s.row.id now _ s.row.cloudflare_id refl)
      (λ g. (refl, passed_over now s c g)) (λ m. refl) (λ g m. refl)

-- However Cloudflare and the database answer while nothing else moves, for a row that has an instant of
-- retirement exactly if it is retired, and that its own owner disconnects: when `disconnectDomain` tells
-- the owner of a claim that it is disconnected, the claim is retired in the database; and there is no
-- other answer than that it could not be disconnected.
pub disconnect_domain-IsTold :
    (o : ℕ → Answers) (now : ℕ) (s : Store)
    → IsConsistent s.row
    → IsTold
        (complete o 0 (disconnect_domain now s.row.owner_id s.row.id) s).0
        (complete o 0 (disconnect_domain now s.row.owner_id s.row.id) s).1
unfolding disconnect_domain
disconnect_domain-IsTold o now s c =
    let rest = retire-EndsIn now s c in
    complete-EndsIn IsTold o 0 (disconnect_domain now s.row.owner_id s.row.id) s (
      write-EndsIn IsTold (forget_default_write s.row.owner_id s.row.id)
        (λ _. retire now s.row.owner_id s.row.id) s
        (λ g. retire-EndsIn now (record s { default_id = none }) c) (λ g. rest) (λ m. rest)
        (λ g m. retire-EndsIn now (record s { default_id = none }) c))
