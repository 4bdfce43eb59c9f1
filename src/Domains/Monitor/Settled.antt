-- ===== src/Domains/Monitor/Settled.antt =====
-- What a cycle makes of a row, when nothing else moves.
use htmlradar.Common.{◌≡◌, ℕ, Text, Option, none, some, leb, ◌+◌, if◌then◌else◌, or_else}
use htmlradar.Proxy.World.{DomainState, pending, live, disconnected}
use htmlradar.Domains.Store.{Row, Store}
use htmlradar.Domains.Monitor.{DomainCheck, passed, provider_problem, domain_problem}

-- What a cycle changes of a row: where the claim stands, how many failures in a row it has had,
-- what is shown as wrong, and when it was checked.
pub record Standing : Type 0 where
  pub state : DomainState
  pub failures : Option ℕ
  pub last_error : Option Text
  pub checked_at : Option ℕ

abbrev pub standing_of : Row → Standing
standing_of r = record {
  state = r.state;
  failures = r.consecutive_failures;
  last_error = r.last_error;
  checked_at = r.last_checked_at;
}

-- The rule for a failure of the domain: a claim that never worked waits on, every other counts it,
-- and a live claim that had failed before is taken down.
unfoldable pub failed_once : ℕ → DomainState → Option ℕ → Text → Standing
failed_once at pending n m = record {
  state = pending;
  failures = n;
  last_error = some m;
  checked_at = some at;
}
failed_once at live n m = record {
  state = if leb 1 (or_else n 0) then disconnected else live;
  failures = some (or_else n 0 + 1);
  last_error = some m;
  checked_at = some at;
}
failed_once at d n m = record {
  state = d;
  failures = some (or_else n 0 + 1);
  last_error = some m;
  checked_at = some at;
}

-- The rule: the provider's problem is only noted; a claim that works is live, with a clean record.
unfoldable pub settled : ℕ → DomainCheck → Standing → Standing
unfolding failed_once
settled at (provider_problem m) was = record was { last_error = some m; checked_at = some at }
settled at (passed status ssl) was = record {
  state = live;
  failures = some 0;
  last_error = none;
  checked_at = some at;
}
settled at (domain_problem m) was = failed_once at was.state was.failures m

abbrev IsLeft : Standing → Unit {0} → Store → Type 0
IsLeft d u t = standing_of t.row ≡ d
