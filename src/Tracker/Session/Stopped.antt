-- ===== src/Tracker/Session/Stopped.antt =====
-- The end of a session: what it does once the database has refused its token.
use htmlradar.Common.{
  ℕ, ◌≡◌, refl, ◌∙◌, Bool, true, false, Option, none, List, [], ◌∷◌, arith, max, All,
}
use htmlradar.Tracker.Session.{
  Session, Page, Payload, SectionInfo, Ratio, Event, hidden, visible, page_hide, activity, scroll,
  heartbeat, api_flush, api_opt_out, too_long, frame, answered, Answer, accepted, invalid_token,
  failed, step, update_max_scroll, reach, on_frame, flushed, stop, guarded, whole,
}
use htmlradar.Tracker.Session.Flushes.{sent, sent_now}
use htmlradar.Tracker.Session.Active.{Moment, act, run, scroll-Same, flushed-Same}

-- No listener is bound and no timer is set.
abbrev IsStopped : Session → Type 0
IsStopped s = (s.bound ≡ false) × (s.timers ≡ false)

reach-IsStopped : (ratio : Ratio) (s : Session) → IsStopped s → IsStopped (reach ratio s)
unfolding reach
reach-IsStopped ratio s h = ground arith

scroll-IsStopped : (page : Page) (s : Session) → IsStopped s → IsStopped (update_max_scroll page s)
unfolding update_max_scroll
scroll-IsStopped page s h =
    let full = reach-IsStopped whole s h in
    let part =
      reach-IsStopped
        (record {
          num = max page.scroll_y (max page.element_top page.body_top);
          den = page.doc_height;
        })
        s h in
    ground (arith, full, part)

abbrev IsStill : Session → Session × Option Payload → Type 0
IsStill s r = (sent_now r.1 ≡ 0) × (r.0.active_ms ≡ s.active_ms) × IsStopped r.0

guarded-IsStill :
    (b : Bool) (r : Session × Option Payload) (s : Session)
    → b ≡ false
    → IsStopped s
    → IsStill s (guarded b r s)
guarded-IsStill true r s e h = cc
guarded-IsStill false r s e h = (refl, refl, h)

frame-IsStill :
    (b : Bool) (page : Page) (s : Session)
    → IsStopped s
    → IsStill s (guarded b (on_frame page s, none) s)
unfolding on_frame
frame-IsStill true page s h =
    let asked = record s { raf_scheduled = false } in
    (refl, (scroll-Same page asked).0, scroll-IsStopped page asked h)
frame-IsStill false page s h = (refl, refl, h)

flushed-IsStopped : (a : Answer) (s : Session) → IsStopped s → IsStopped (flushed a s)
unfolding flushed stop
flushed-IsStopped accepted s h = h
flushed-IsStopped invalid_token s h = (refl, refl)
flushed-IsStopped failed s h = h

answer-IsStill :
    (b : Bool) (a : Answer) (s : Session)
    → IsStopped s
    → IsStill s (guarded b (flushed a s, none) s)
answer-IsStill true a s h = (refl, (flushed-Same a s).0, flushed-IsStopped a s h)
answer-IsStill false a s h = (refl, refl, h)

stop-IsStill : (s : Session) → IsStill s (stop s, none)
unfolding stop
stop-IsStill s = (refl, refl, (refl, refl))

-- The page asks for a flush itself, through `window.HTMLRadar`.
abbrev pub is_asked : Event → Bool
is_asked api_flush = true
is_asked _ = false

step-IsStill :
    (bf : Payload → Option Payload) (page : Page) (now : ℕ) (sections : List SectionInfo)
    (e : Event) (s : Session)
    → is_asked e ≡ false
    → IsStopped s
    → IsStill s (step bf page now sections e s)
unfolding step
step-IsStill bf page now sections hidden s q h = guarded-IsStill s.bound _ s h.0 h
step-IsStill bf page now sections visible s q h = guarded-IsStill s.bound _ s h.0 h
step-IsStill bf page now sections page_hide s q h = guarded-IsStill s.bound _ s h.0 h
step-IsStill bf page now sections activity s q h = guarded-IsStill s.bound _ s h.0 h
step-IsStill bf page now sections scroll s q h = guarded-IsStill s.bound _ s h.0 h
step-IsStill bf page now sections heartbeat s q h = guarded-IsStill s.timers _ s h.1 h
step-IsStill bf page now sections too_long s q h = guarded-IsStill s.timers _ s h.1 h
step-IsStill bf page now sections frame s q h = frame-IsStill s.raf_scheduled page s h
step-IsStill bf page now sections (answered a) s q h = answer-IsStill s.flushing a s h
step-IsStill bf page now sections api_flush s q h = cc
step-IsStill bf page now sections api_opt_out s q h = stop-IsStill s

run-IsStopped :
    (bf : Payload → Option Payload) (ms : List Moment) (s : Session)
    → All (λ m. is_asked m.event ≡ false) ms
    → IsStopped s
    → (sent bf ms s ≡ 0) × ((run bf ms s).active_ms ≡ s.active_ms)
run-IsStopped bf [] s q h = (refl, refl)
run-IsStopped bf (m ∷ ms) s (q, qs) h =
    let (quiet, same_time, stopped) = step-IsStill bf m.page m.now m.sections m.event s q h in
    let (none_sent, rest) = run-IsStopped bf ms (act bf m s) qs stopped in
    (omega arith, rest ∙ same_time)

-- A token that the database does not know ends the session: whatever happens afterwards, apart from a
-- flush that the page itself asks for through `window.HTMLRadar`, no further request is sent and
-- no reading time is counted.
pub run-invalid_token :
    (bf : Payload → Option Payload) (page : Page) (now : ℕ) (sections : List SectionInfo)
    (ms : List Moment) (s : Session)
    → s.flushing ≡ true
    → All (λ m. is_asked m.event ≡ false) ms
    → (sent bf ms (step bf page now sections (answered invalid_token) s).0 ≡ 0)
      × ((run bf ms (step bf page now sections (answered invalid_token) s).0).active_ms
          ≡ s.active_ms)
unfolding step flushed stop
run-invalid_token bf page now sections ms s h q =
    let after = (step bf page now sections (answered invalid_token) s).0 in
    let (none_sent, same_time) = run-IsStopped bf ms after q (ended s.flushing h) in
    (none_sent, same_time ∙ kept s.flushing h)
  where
    ended : (b : Bool) → b ≡ true → IsStopped (guarded b (flushed invalid_token s, none) s).0
    ended true e = (refl, refl)
    ended false e = cc

    kept :
        (b : Bool)
        → b ≡ true
        → (guarded b (flushed invalid_token s, none) s).0.active_ms ≡ s.active_ms
    kept true e = refl
    kept false e = cc
