-- ===== src/Domains/Disconnect/Safe.antt =====
-- Disconnecting a hostname keeps to the life of the claim: only its own retirement lets it write the
-- clean-up down.
use htmlradar.Common.{
  ◌≡◌, ◌≢◌, refl, ℕ, Text, Option, none, some, [], ◌∷◌, true, false, inl, inr, arith,
}
use htmlradar.Proxy.World.{retired}
use htmlradar.Domains.Store.{Store, Tried, got, threw}
use htmlradar.Domains.Claims.{delete_twice}
use htmlradar.Domains.Claims.Safe.{delete_twice-IsQuiet}
use htmlradar.Domains.Disconnect.{
  cleaned, clean_up, was_retired, retire, retire_write, disconnect_domain,
}
use htmlradar.Domains.Lifecycle.{IsSafe, IsSafe-after, IsConsistent, retires, swept}

cleaned-IsSafe :
    (user id : Text) (now : ℕ) (x : Tried (Unit {0})) → IsSafe true (cleaned user id now x)
unfolding cleaned
cleaned-IsSafe user id now (got u) = (
  λ s c k e. elim k [ inl f ↦ ground arith | inr r ↦ inr (swept r refl) ],
  (false, λ s e. inl refl, λ r. tt),
  tt,
  λ m. tt,
)
cleaned-IsSafe user id now (threw m) = tt

clean_up-IsSafe :
    (user id : Text) (now : ℕ) (x : Option Text) → IsSafe true (clean_up user id now x)
unfolding clean_up
clean_up-IsSafe user id now (some (c ∷ t)) =
    IsSafe-after true (delete_twice (c ∷ t)) (cleaned user id now) (delete_twice-IsQuiet (c ∷ t))
      (cleaned-IsSafe user id now)
clean_up-IsSafe user id now (some []) = tt
clean_up-IsSafe user id now none = tt

-- The guard of the retirement asks that there was none.
guard-open :
    (user id : Text) (now : ℕ) (s : Store)
    → IsConsistent s.row
    → (retire_write user id now).guard s ≡ true
    → s.row.state ≢ retired
guard-open user id now s c e h = let some_time = c.0 h in ground arith

retire-IsSafe : (now : ℕ) (user id : Text) → IsSafe false (retire now user id)
unfolding retire was_retired
retire-IsSafe now user id = (
  λ s c k e. inr (retires (guard-open user id now s c e) refl refl (refl, refl, refl)),
  (true, λ s e. inr refl, λ r. clean_up-IsSafe user id now r.cloudflare_id),
  tt,
  λ m. tt,
)

pub disconnect_domain-IsSafe :
    (now : ℕ) (user id : Text) → IsSafe false (disconnect_domain now user id)
unfolding disconnect_domain
disconnect_domain-IsSafe now user id = (
  λ s c k e. inl refl,
  (false, λ s e. inl refl, λ r. retire-IsSafe now user id),
  retire-IsSafe now user id,
  λ m. retire-IsSafe now user id,
)
