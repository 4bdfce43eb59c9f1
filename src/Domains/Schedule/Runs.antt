-- ===== src/Domains/Schedule/Runs.antt =====
-- However the services interleave, whatever they read before, and whatever is answered or lost, the row
-- only ever moves along the life of a claim.
use htmlradar.Common.{
  ℕ, zero, suc, ◌≡◌, refl, sym, List, [], ◌∷◌, Bool, true, false, inl, inr, ◌⊎◌, is_some,
}
use htmlradar.Proxy.World.{retired}
use htmlradar.Domains.Store.{
  Row, Store, Write, Wrote, Fault, fine, lost_before, lost_after, Answers, Prog, done, ask, find,
  delete, visit, look, remove, insert, write, note, written, lost, apply, advance,
}
use htmlradar.Domains.Connect.Safe.{connect_domain-IsSafe}
use htmlradar.Domains.Check.Safe.{check_domain-IsSafe}
use htmlradar.Domains.Disconnect.Safe.{disconnect_domain-IsSafe}
use htmlradar.Domains.Monitor.Safe.{domain_lifecycle-IsSafe}
use htmlradar.Domains.Lifecycle.{
  IsOneStep, IsHistory, IsSwept, newest, IsHistory-retired, IsOneStep-IsConsistent,
  IsOneStep-retired, IsConsistent, IsSafe,
}
use htmlradar.Domains.Schedule.{
  Request, connecting, checking, disconnecting, cycling, Agent, app, cron, launch, World,
  agent_step, Move, begins, answered, move_at, move, run,
}

-- What the program knows of the row holds in the store.
abbrev Knows : Bool → Store → Type 0
Knows known s = (known ≡ false) ⊎ (s.row.state ≡ retired)

-- A row stays retired, so what is known goes on.
Knows-later :
    (known : Bool) (r t : Row)
    → (known ≡ false) ⊎ (r.state ≡ retired)
    → IsOneStep r t
    → (known ≡ false) ⊎ (t.state ≡ retired)
Knows-later known r t (inl f) a = inl f
Knows-later known r t (inr e) a = inr (IsOneStep-retired r t a e)

abbrev IsFit : {A : Type 0} → Prog A → Store → Type 0
IsFit p s = (known : Bool) × IsSafe known p × Knows known s

-- One write that is allowed, by what its guard says: where the row goes, and what the program knows.
written-IsFit :
    {A : Type 0} (w : Write) (n : Wrote → Prog A) (known : Bool) (s : Store)
    → IsConsistent s.row
    → IsSafe known (write w n)
    → Knows known s
    → (b : Bool) → w.guard s ≡ b
    → IsOneStep s.row (written b (w.change s) s).0.row
      × IsFit (n (written b (w.change s) s).1) (written b (w.change s) s).0
written-IsFit w n known s c h k true t = (h.0 s c k t, (h.1.0, h.1.2 _, h.1.1 s k))
written-IsFit w n known s c h k false f = (inl refl, (known, h.2, k))

lost-IsFit :
    {A : Type 0} (w : Write) (n : Wrote → Prog A) (known : Bool) (s : Store)
    → IsConsistent s.row
    → IsSafe known (write w n)
    → Knows known s
    → (b : Bool) → w.guard s ≡ b
    → IsOneStep s.row (lost b (w.change s) s).0.row
      × IsFit (n (lost b (w.change s) s).1) (lost b (w.change s) s).0
lost-IsFit w n known s c h k true t =
    let moved = h.0 s c k t in
    (moved, (known, h.3 _, Knows-later known s.row (w.change s).row k moved))
lost-IsFit w n known s c h k false f = (inl refl, (known, h.3 _, k))

apply-IsFit :
    {A : Type 0} (x : Fault) (w : Write) (n : Wrote → Prog A) (known : Bool) (s : Store)
    → IsConsistent s.row
    → IsSafe known (write w n)
    → Knows known s
    → IsOneStep s.row (apply x w s).0.row × IsFit (n (apply x w s).1) (apply x w s).0
unfolding apply
apply-IsFit lost_before w n known s c h k = (inl refl, (known, h.3 _, k))
apply-IsFit fine w n known s c h k = written-IsFit w n known s c h k (w.guard s) refl
apply-IsFit lost_after w n known s c h k = lost-IsFit w n known s c h k (w.guard s) refl

advance-IsFit :
    {A : Type 0} (x : Answers) (p : Prog A) (s : Store)
    → IsConsistent s.row
    → IsFit p s
    → IsOneStep s.row (advance x p s).1.row × IsFit (advance x p s).0 (advance x p s).1
unfolding advance
advance-IsFit x (done a) s c h = (inl refl, h)
advance-IsFit x (ask q n) s c (b, h, k) = (inl refl, (b, h x.on_ask, k))
advance-IsFit x (find q n) s c (b, h, k) = (inl refl, (b, h x.on_find, k))
advance-IsFit x (delete q n) s c (b, h, k) = (inl refl, (b, h x.on_delete, k))
advance-IsFit x (visit q n) s c (b, h, k) = (inl refl, (b, h x.on_visit, k))
advance-IsFit x (look q n) s c (b, h, k) = (inl refl, (b, h x.on_look, k))
advance-IsFit x (remove q n) s c (b, h, k) = (inl refl, (b, h x.on_remove, k))
advance-IsFit x (insert o q n) s c (b, h, k) = (inl refl, (b, h x.on_insert, k))
advance-IsFit x (write w n) s c (b, h, k) = apply-IsFit x.fault w n b s c h k
advance-IsFit x (note e p) s c (b, h, k) = (inl refl, (b, h, k))

abbrev IsFitAgent : Agent → Store → Type 0
IsFitAgent (app p) s = IsFit p s
IsFitAgent (cron p) s = IsFit p s

abbrev AreFit : List Agent → Store → Type 0
AreFit [] s = Unit
AreFit (a ∷ rest) s = IsFitAgent a s × AreFit rest s

launch-IsFitAgent : (r : Request) (s : Store) → IsFitAgent (launch r) s
unfolding launch
launch-IsFitAgent (connecting e now user raw) s =
    (false, connect_domain-IsSafe e now user raw, inl refl)
launch-IsFitAgent (checking now user read) s = (false, check_domain-IsSafe now user read, inl refl)
launch-IsFitAgent (disconnecting now user id) s =
    (false, disconnect_domain-IsSafe now user id, inl refl)
launch-IsFitAgent (cycling now created read) s =
    (false, domain_lifecycle-IsSafe now created read, inl refl)

IsFitAgent-later :
    (a : Agent) (s t : Store) → IsOneStep s.row t.row → IsFitAgent a s → IsFitAgent a t
IsFitAgent-later (app p) s t m (b, h, k) = (b, h, Knows-later b s.row t.row k m)
IsFitAgent-later (cron p) s t m (b, h, k) = (b, h, Knows-later b s.row t.row k m)

AreFit-later : (l : List Agent) (s t : Store) → IsOneStep s.row t.row → AreFit l s → AreFit l t
AreFit-later [] s t m h = tt
AreFit-later (a ∷ rest) s t m h = (IsFitAgent-later a s t m h.0, AreFit-later rest s t m h.1)

agent_step-IsFit :
    (x : Answers) (a : Agent) (s : Store)
    → IsConsistent s.row
    → IsFitAgent a s
    → IsOneStep s.row (agent_step x a s).1.row
      × IsFitAgent (agent_step x a s).0 (agent_step x a s).1
unfolding agent_step
agent_step-IsFit x (app p) s c h = advance-IsFit x p s c h
agent_step-IsFit x (cron p) s c h = advance-IsFit x p s c h

move_at-AreFit :
    (i : ℕ) (x : Answers) (l : List Agent) (s : Store)
    → IsConsistent s.row
    → AreFit l s
    → IsOneStep s.row (move_at i x l s).store.row
      × AreFit (move_at i x l s).agents (move_at i x l s).store
unfolding move_at
move_at-AreFit i x [] s c h = (inl refl, tt)
move_at-AreFit zero x (a ∷ rest) s c (h, k) =
    let (m, f) = agent_step-IsFit x a s c h in
    (m, (f, AreFit-later rest s (agent_step x a s).1 m k))
move_at-AreFit (suc i) x (a ∷ rest) s c (h, k) =
    let (m, f) = move_at-AreFit i x rest s c k in
    (m, (IsFitAgent-later a s (move_at i x rest s).store m h, f))

move-AreFit :
    (m : Move) (w : World)
    → IsConsistent w.store.row
    → AreFit w.agents w.store
    → IsOneStep w.store.row (move m w).store.row × AreFit (move m w).agents (move m w).store
unfolding move
move-AreFit (begins r) w c h = (inl refl, (launch-IsFitAgent r w.store, h))
move-AreFit (answered i x) w c h = move_at-AreFit i x w.agents w.store c h

-- The row after each move.
abbrev pub rows : List Move → World → List Row
rows [] w = []
rows (m ∷ ms) w = (move m w).store.row ∷ rows ms (move m w)

rows-IsHistory :
    (ms : List Move) (w : World)
    → IsConsistent w.store.row
    → AreFit w.agents w.store
    → IsHistory w.store.row (rows ms w) × (newest w.store.row (rows ms w) ≡ (run ms w).store.row)
unfolding run
rows-IsHistory [] w c h = (tt, refl)
rows-IsHistory (m ∷ ms) w c h =
    let (a, f) = move-AreFit m w c h in
    let (b, e) =
      rows-IsHistory ms (move m w) (IsOneStep-IsConsistent w.store.row (move m w).store.row a c)
        f in
    ((a, b), e)

-- The app's requests and the monitor's cycles, interleaved between any two of their calls, with any
-- answers of Cloudflare, the probe and the database, on rows that were read at any time before: from a
-- row that has an instant of retirement exactly if it is retired, each single move leaves the row or
-- takes it one step along the life of a claim, up to the row that the run ends with. In one step a
-- claim is noted on or goes live while it is not retired, falls to disconnected only while it is live,
-- is retired once, and then only its clean-up is written down.
pub services-refine :
    (ms : List Move) (s : Store)
    → IsConsistent s.row
    → IsHistory s.row (rows ms (record { agents = []; store = s }))
      × (newest s.row (rows ms (record { agents = []; store = s }))
          ≡ (run ms (record { agents = []; store = s })).store.row)
services-refine ms s c = rows-IsHistory ms (record { agents = []; store = s }) c tt

-- What a run leaves is fit for another.
run-AreFit :
    (ms : List Move) (w : World)
    → IsConsistent w.store.row
    → AreFit w.agents w.store
    → IsConsistent (run ms w).store.row × AreFit (run ms w).agents (run ms w).store
unfolding run
run-AreFit [] w c h = (c, h)
run-AreFit (m ∷ ms) w c h =
    let (a, f) = move-AreFit m w c h in
    run-AreFit ms (move m w) (IsOneStep-IsConsistent w.store.row (move m w).store.row a c) f

-- No interleaving of the services revives a claim that was retired: where a run from a row that has an
-- instant of retirement exactly if it is retired comes to a retired row, whatever requests and
-- cycles are under way then or begin later, and whatever they had read, this row stays retired, with
-- the instant of it, and nothing of it changes but what is noted of its clean-up. (A reconnection
-- of the same hostname is another row.)
pub retired-forever :
    (ms later : List Move) (s : Store)
    → IsConsistent s.row
    → (run ms (record { agents = []; store = s })).store.row.state ≡ retired
    → IsSwept
        (run ms (record { agents = []; store = s })).store.row
        (run later (run ms (record { agents = []; store = s }))).store.row
      × ((run later (run ms (record { agents = []; store = s }))).store.row.state ≡ retired)
      × (is_some (run later (run ms (record { agents = []; store = s }))).store.row.retired_at
          ≡ true)
retired-forever ms later s c e =
    let w = run ms (record { agents = []; store = s }) in
    let (kept, fit) = run-AreFit ms (record { agents = []; store = s }) c tt in
    let (past, last) = rows-IsHistory later w kept fit in
    rw (sym last) (IsHistory-retired w.store.row _ past kept e)
