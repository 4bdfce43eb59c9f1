-- ===== src/Tracker/Session/Idle.antt =====
-- The idle watchdog: what a session counts after the reader's last sign of attention.
use htmlradar.Common.{
  ℕ, ◌+◌, ◌-◌, ◌≤◌, ◌≡◌, refl, Bool, true, false, Option, none, some, List, [], ◌∷◌, arith, All,
  inl, inr,
}
use htmlradar.Tracker.Session.{
  Session, Page, Payload, SectionInfo, Event, hidden, visible, page_hide, activity, scroll,
  heartbeat, api_flush, api_opt_out, too_long, frame, answered, step, tick_active, credit, flush,
  leave, on_frame, flushed, guarded, idle_threshold_ms,
}
use htmlradar.Tracker.Session.Active.{
  Moment, act, run, Ordered, Same, scroll-Same, flushed-Same, Flushed, flush-Flushed,
}

-- A key, a touch, a scroll, or the tab coming back.
abbrev pub is_signal : Event → Bool
is_signal activity = true
is_signal scroll = true
is_signal visible = true
is_signal _ = false

-- The time counted, with what may be counted up to the idle point, stays under the cap.
abbrev Held : (idle_at cap t active : ℕ) → Option ℕ → Type 0
Held idle_at cap t active none = active ≤ cap
Held idle_at cap t active (some since) = (active + (idle_at - since) ≤ cap) × (since ≤ t)

abbrev Capped : (idle_at cap t : ℕ) → Session → Type 0
Capped idle_at cap t s =
    (s.last_activity_ms + idle_threshold_ms ≡ idle_at)
    × Held idle_at cap t s.active_ms s.running_since

module _ (idle_at cap : ℕ) where
  tick-Capped :
      (t now : ℕ) (s : Session)
      → t ≤ now
      → Capped idle_at cap t s
      → Capped idle_at cap now (tick_active now s)
  unfolding tick_active credit
  tick-Capped t now s later h = ground arith

  later-Capped :
      (t now : ℕ) (s : Session) → t ≤ now → Capped idle_at cap t s → Capped idle_at cap now s
  later-Capped t now s later h = ground arith

  leave-Capped :
      (t now : ℕ) (s : Session)
      → t ≤ now
      → Capped idle_at cap t s
      → Capped idle_at cap now (leave now s)
  unfolding leave tick_active credit
  leave-Capped t now s later h = ground arith

  Same-Capped :
      (t : ℕ) (s s' : Session) → Same s s' → Capped idle_at cap t s → Capped idle_at cap t s'
  Same-Capped t s s' (a, b, c) h = rw (a, b, c) h

  Flushed-Capped :
      (t now : ℕ) (s s' : Session)
      → t ≤ now
      → Capped idle_at cap t s
      → Flushed now s s'
      → Capped idle_at cap now s'
  Flushed-Capped t now s s' later h (inl e) = Same-Capped now s s' e (later-Capped t now s later h)
  Flushed-Capped t now s s' later h (inr e) =
      Same-Capped now (tick_active now s) s' e (tick-Capped t now s later h)

  guarded-Capped :
      (t : ℕ) (b : Bool) (r : Session × Option Payload) (s : Session)
      → Capped idle_at cap t r.0
      → Capped idle_at cap t s
      → Capped idle_at cap t (guarded b r s).0
  guarded-Capped t true r s h k = h
  guarded-Capped t false r s h k = k

  left-Capped :
      (bf : Payload → Option Payload) (page : Page) (t now : ℕ) (sections : List SectionInfo)
      (s : Session)
      → t ≤ now
      → Capped idle_at cap t s
      → Capped idle_at cap now (flush bf page now sections (leave now s)).0
  left-Capped bf page t now sections s later h =
      Flushed-Capped now now (leave now s) (flush bf page now sections (leave now s)).0
        (omega arith) (leave-Capped t now s later h)
        (flush-Flushed bf page now sections (leave now s))

  step-Capped :
      (bf : Payload → Option Payload) (page : Page) (t now : ℕ) (sections : List SectionInfo)
      (e : Event) (s : Session)
      → is_signal e ≡ false
      → t ≤ now
      → Capped idle_at cap t s
      → Capped idle_at cap now (step bf page now sections e s).0
  unfolding step
  step-Capped bf page t now sections hidden s q later h =
      guarded-Capped now s.bound _ s (left-Capped bf page t now sections s later h)
        (later-Capped t now s later h)
  step-Capped bf page t now sections page_hide s q later h =
      guarded-Capped now s.bound _ s (left-Capped bf page t now sections s later h)
        (later-Capped t now s later h)
  step-Capped bf page t now sections heartbeat s q later h =
      guarded-Capped now s.timers _ s
        (Flushed-Capped t now s (flush bf page now sections s).0 later h
          (flush-Flushed bf page now sections s))
        (later-Capped t now s later h)
  step-Capped bf page t now sections api_flush s q later h =
      Flushed-Capped t now s (flush bf page now sections s).0 later h
        (flush-Flushed bf page now sections s)
  step-Capped bf page t now sections api_opt_out s q later h = later-Capped t now s later h
  step-Capped bf page t now sections too_long s q later h =
      guarded-Capped now s.timers _ s (later-Capped t now s later h) (later-Capped t now s later h)
  step-Capped bf page t now sections frame s q later h =
      guarded-Capped now s.raf_scheduled _ s
        (Same-Capped now (record s { raf_scheduled = false }) (on_frame page s)
          (scroll-Same page (record s { raf_scheduled = false })) (later-Capped t now s later h))
        (later-Capped t now s later h)
  step-Capped bf page t now sections (answered a) s q later h =
      guarded-Capped now s.flushing _ s
        (Same-Capped now s (flushed a s) (flushed-Same a s) (later-Capped t now s later h))
        (later-Capped t now s later h)
  step-Capped bf page t now sections visible s q later h = cc
  step-Capped bf page t now sections activity s q later h = cc
  step-Capped bf page t now sections scroll s q later h = cc

  run-Capped :
      (bf : Payload → Option Payload) (t : ℕ) (ms : List Moment) (s : Session)
      → Ordered t ms
      → All (λ m. is_signal m.event ≡ false) ms
      → Capped idle_at cap t s
      → (run bf ms s).active_ms ≤ cap
  run-Capped bf t [] s o q h = under s.running_since h.1
    where
      under : (since : Option ℕ) → Held idle_at cap t s.active_ms since → s.active_ms ≤ cap
      under none k = k
      under (some x) k = omega arith
  run-Capped bf t (m ∷ ms) s (later, o) (q, qs) h =
      run-Capped bf m.now ms (act bf m s) o qs
        (step-Capped bf m.page t m.now m.sections m.event s q later h)

-- A reader who shows no sign of attention is counted for five seconds more at most: over any run of
-- other events, the reading time grows by no more than what is left, from where the clock runs, up
-- to five seconds behind the last sign.
pub run-idle :
    (bf : Payload → Option Payload) (t since : ℕ) (ms : List Moment) (s : Session)
    → s.running_since ≡ some since
    → since ≤ t
    → Ordered t ms
    → All (λ m. is_signal m.event ≡ false) ms
    → (run bf ms s).active_ms ≤ s.active_ms + (s.last_activity_ms + idle_threshold_ms - since)
run-idle bf t since ms s e k o q =
    run-Capped (s.last_activity_ms + idle_threshold_ms)
      (s.active_ms + (s.last_activity_ms + idle_threshold_ms - since)) bf t ms s o q
      (refl, rw e (omega arith, k))
