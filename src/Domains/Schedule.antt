-- ===== src/Domains/Schedule.antt =====
-- The app's requests and the monitor's cycles on one row, side by side: any number of them, each of
-- which may stop for as long as it likes between two calls, and be lost at any of them.
pub mod Runs
use htmlradar.Common.{
  ℕ, zero, suc, ◌≡◌, refl, Text, Option, none, some, List, [], ◌∷◌, Bool, true, false,
}
use htmlradar.Domains.Store.{Row, Store, Answers, Prog, advance}
use htmlradar.Domains.Hostnames.{Settings}
use htmlradar.Domains.Claims.{Outcome}
use htmlradar.Domains.Connect.{connect_domain}
use htmlradar.Domains.Check.{check_domain}
use htmlradar.Domains.Disconnect.{disconnect_domain}
use htmlradar.Domains.Monitor.{domain_lifecycle}

-- What the services are asked to do. The row of a check or a cycle is what that service read, however
-- long ago.
pub data Request : Type 0 where
  connecting : Settings → (now : ℕ) → (user raw : Text) → Request
  checking : (now : ℕ) → (user : Text) → (read : Row) → Request
  disconnecting : (now : ℕ) → (user id : Text) → Request
  cycling : (now created : ℕ) → (read : Row) → Request

-- One that has begun, with what it has left to do.
pub data Agent : Type 0 where
  app : Prog Outcome → Agent
  cron : Prog (Unit {0}) → Agent

unfoldable pub launch : Request → Agent
unfolding connect_domain check_domain disconnect_domain domain_lifecycle
launch (connecting e now user raw) = app (connect_domain e now user raw)
launch (checking now user read) = app (check_domain now user read)
launch (disconnecting now user id) = app (disconnect_domain now user id)
launch (cycling now created read) = cron (domain_lifecycle now created read)

pub record World : Type 0 where
  pub agents : List Agent
  pub store : Store

unfoldable pub agent_step : Answers → Agent → Store → Agent × Store
unfolding advance
agent_step x (app p) s = let (q, t) = advance x p s in (app q, t)
agent_step x (cron p) s = let (q, t) = advance x p s in (cron q, t)

-- One move: a service begins a request, or the agent at an index gets the answer to its call.
pub data Move : Type 0 where
  begins : Request → Move
  answered : (index : ℕ) → Answers → Move

unfoldable pub move_at : ℕ → Answers → List Agent → Store → World
unfolding agent_step
move_at i x [] s = record { agents = []; store = s }
move_at zero x (a ∷ rest) s =
    let (b, t) = agent_step x a s in record { agents = b ∷ rest; store = t }
move_at (suc i) x (a ∷ rest) s =
    let moved = move_at i x rest s in record { agents = a ∷ moved.agents; store = moved.store }

unfoldable pub move : Move → World → World
unfolding launch move_at
move (begins r) w = record { agents = launch r ∷ w.agents; store = w.store }
move (answered i x) w = move_at i x w.agents w.store

unfoldable pub run : List Move → World → World
unfolding move
run [] w = w
run (m ∷ ms) w = run ms (move m w)
