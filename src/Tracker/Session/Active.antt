-- ===== src/Tracker/Session/Active.antt =====
-- The reading time of a session over a run of events.
use htmlradar.Common.{
  ◌==◌, max, ℕ, ◌+◌, ◌≤◌, ◌≡◌, refl, Bool, true, false, Option, none, some, List, [], ◌∷◌, arith,
  or_else, Bool-cases, ◌∙◌, ◌⊎◌, inl, inr, leb, not,
}
use htmlradar.Tracker.Session.{
  Session, Page, Payload, SectionInfo, Started, Ratio, Event, hidden, visible, page_hide, activity,
  scroll, heartbeat, api_flush, api_opt_out, too_long, frame, answered, Answer, accepted,
  invalid_token, failed, step, tick_active, credit, update_max_scroll, reach, flush, flush_ready,
  flush_started, guarded, install, fresh, leave, on_activity, on_frame, flushed, stop, whole, begin,
}

-- An event, when and on what page it came, and the sections that are reported then.
pub record Moment : Type 0 where
  pub page : Page
  pub now : ℕ
  pub sections : List SectionInfo
  pub event : Event

module _ (before_flush : Payload → Option Payload) where
  abbrev pub act : Moment → Session → Session
  act m s = (step before_flush m.page m.now m.sections m.event s).0

  abbrev pub run : List Moment → Session → Session
  run [] s = s
  run (m ∷ ms) s = run ms (act m s)

-- The clock does not go back.
abbrev pub Ordered : ℕ → List Moment → Type 0
Ordered t [] = Unit
Ordered t (m ∷ ms) = (t ≤ m.now) × Ordered m.now ms

abbrev pub last_now : ℕ → List Moment → ℕ
last_now t [] = t
last_now t (m ∷ ms) = last_now m.now ms

-- The time that is credited, and that may be credited still, lies between the start and now.
abbrev Elapsed : ℕ → ℕ → Session → Type 0
Elapsed start t s =
    (start + s.active_ms ≤ or_else s.running_since t) × (or_else s.running_since t ≤ t)

tick-Elapsed :
    (start t now : ℕ) (s : Session)
    → t ≤ now
    → Elapsed start t s
    → Elapsed start now (tick_active now s)
unfolding tick_active credit
tick-Elapsed start t now s later (h, k) = ground arith

-- What a step reads of the session besides, the reading time does not depend on.
abbrev pub Same : Session → Session → Type 0
Same s s' =
    (s'.active_ms ≡ s.active_ms)
    × (s'.running_since ≡ s.running_since)
    × (s'.last_activity_ms ≡ s.last_activity_ms)

reach-Same : (ratio : Ratio) (s : Session) → Same s (reach ratio s)
unfolding reach
reach-Same ratio s = ground arith

pub scroll-Same : (page : Page) (s : Session) → Same s (update_max_scroll page s)
unfolding update_max_scroll reach
scroll-Same page s = elim (Bool-cases (page.doc_height == 0)) [
  | inl h ↦ rw h (reach-Same whole s)
  | inr h ↦
      elim (Bool-cases
        (leb page.doc_height (max page.scroll_y (max page.element_top page.body_top)))) [
          | inl k ↦ rw (h, k) (reach-Same whole s)
          | inr k ↦ rw (h, k) (reach-Same _ s)
        ]
]

ready-Same :
    (bf : Payload → Option Payload) (started : Started) (sections : List SectionInfo) (s : Session)
    → Same s (flush_ready bf started sections s).0
unfolding flush_ready
ready-Same bf started sections s = ground arith

-- A flush leaves the reading time alone, or brings it up to date.
abbrev pub Flushed : ℕ → Session → Session → Type 0
Flushed now s s' = Same s s' ⊎ Same (tick_active now s) s'

marked_tick :
    (now : ℕ) (s : Session)
    → Same (tick_active now s) (tick_active now (record s { flushing = true }))
unfolding tick_active credit
marked_tick now s = ground arith

Same-trans : (r s t : Session) → Same r s → Same s t → Same r t
Same-trans r s t (a, b, c) (d, e, f) = (d ∙ a, e ∙ b, f ∙ c)

flush_started-Flushed :
    (bf : Payload → Option Payload) (page : Page) (now : ℕ) (sections : List SectionInfo)
    (o : Option Started) (s : Session)
    → Flushed now s (flush_started bf page now sections o s).0
unfolding flush_started
flush_started-Flushed bf page now sections none s = inl (refl, refl, refl)
flush_started-Flushed bf page now sections (some started) s =
    let marked = tick_active now (record s { flushing = true }) in
    let scrolled = update_max_scroll page marked in
    let sent = (flush_ready bf started sections scrolled).0 in
    inr (
      Same-trans (tick_active now s) marked sent (marked_tick now s) (
        Same-trans marked scrolled sent (scroll-Same page marked)
          (ready-Same bf started sections scrolled)))

guarded-Flushed :
    (now : ℕ) (b : Bool) (r : Session × Option Payload) (s : Session)
    → Flushed now s r.0
    → Flushed now s (guarded b r s).0
guarded-Flushed now true r s h = h
guarded-Flushed now false r s h = inl (refl, refl, refl)

pub flush-Flushed :
    (bf : Payload → Option Payload) (page : Page) (now : ℕ) (sections : List SectionInfo)
    (s : Session)
    → Flushed now s (flush bf page now sections s).0
unfolding flush
flush-Flushed bf page now sections s =
    guarded-Flushed now (not s.flushing) (flush_started bf page now sections s.started s) s
      (flush_started-Flushed bf page now sections s.started s)

later-Elapsed : (start t now : ℕ) (s : Session) → t ≤ now → Elapsed start t s → Elapsed start now s
later-Elapsed start t now s later (h, k) = ground arith

guarded-Elapsed :
    (start t : ℕ) (b : Bool) (r : Session × Option Payload) (s : Session)
    → Elapsed start t r.0
    → Elapsed start t s
    → Elapsed start t (guarded b r s).0
guarded-Elapsed start t true r s h k = h
guarded-Elapsed start t false r s h k = k

Flushed-Elapsed :
    (start t now : ℕ) (s s' : Session)
    → t ≤ now
    → Elapsed start t s
    → Flushed now s s'
    → Elapsed start now s'
Flushed-Elapsed start t now s s' later h (inl (a, b, _)) =
    rw (a, b) (later-Elapsed start t now s later h)
Flushed-Elapsed start t now s s' later h (inr (a, b, _)) =
    rw (a, b) (tick-Elapsed start t now s later h)

flush-Elapsed :
    (bf : Payload → Option Payload) (page : Page) (start t now : ℕ) (sections : List SectionInfo)
    (s : Session)
    → t ≤ now
    → Elapsed start t s
    → Elapsed start now (flush bf page now sections s).0
flush-Elapsed bf page start t now sections s later h =
    Flushed-Elapsed start t now s (flush bf page now sections s).0 later h
      (flush-Flushed bf page now sections s)

leave-Elapsed :
    (start t now : ℕ) (s : Session) → t ≤ now → Elapsed start t s → Elapsed start now (leave now s)
unfolding leave tick_active credit
leave-Elapsed start t now s later (h, k) = ground arith

Same-Elapsed : (start t : ℕ) (s s' : Session) → Same s s' → Elapsed start t s → Elapsed start t s'
Same-Elapsed start t s s' (a, b, _) h = rw (a, b) h

pub flushed-Same : (a : Answer) (s : Session) → Same s (flushed a s)
unfolding flushed stop
flushed-Same accepted s = (refl, refl, refl)
flushed-Same invalid_token s = (refl, refl, refl)
flushed-Same failed s = (refl, refl, refl)

activity-Elapsed :
    (page : Page) (start t now : ℕ) (s : Session)
    → t ≤ now
    → Elapsed start t s
    → Elapsed start now (on_activity page now s)
unfolding on_activity
activity-Elapsed page start t now s later h = ground arith

module _ (bf : Payload → Option Payload) (page : Page) (sections : List SectionInfo) where
  step-Elapsed :
      (start t now : ℕ) (e : Event) (s : Session)
      → t ≤ now
      → Elapsed start t s
      → Elapsed start now (step bf page now sections e s).0
  unfolding step
  step-Elapsed start t now hidden s later h =
      guarded-Elapsed start now s.bound _ s
        (flush-Elapsed bf page start now now sections (leave now s) (omega arith)
          (leave-Elapsed start t now s later h))
        (later-Elapsed start t now s later h)
  step-Elapsed start t now page_hide s later h =
      guarded-Elapsed start now s.bound _ s
        (flush-Elapsed bf page start now now sections (leave now s) (omega arith)
          (leave-Elapsed start t now s later h))
        (later-Elapsed start t now s later h)
  step-Elapsed start t now heartbeat s later h =
      guarded-Elapsed start now s.timers _ s (flush-Elapsed bf page start t now sections s later h)
        (later-Elapsed start t now s later h)
  step-Elapsed start t now api_flush s later h =
      flush-Elapsed bf page start t now sections s later h
  step-Elapsed start t now api_opt_out s later h = later-Elapsed start t now s later h
  step-Elapsed start t now frame s later h =
      guarded-Elapsed start now s.raf_scheduled _ s
        (Same-Elapsed start now (record s { raf_scheduled = false }) (on_frame page s)
          (scroll-Same page (record s { raf_scheduled = false }))
          (later-Elapsed start t now s later h))
        (later-Elapsed start t now s later h)
  step-Elapsed start t now (answered a) s later h =
      guarded-Elapsed start now s.flushing _ s
        (Same-Elapsed start now s (flushed a s) (flushed-Same a s)
          (later-Elapsed start t now s later h))
        (later-Elapsed start t now s later h)
  step-Elapsed start t now visible s later h =
      guarded-Elapsed start now s.bound _ s (ground arith) (later-Elapsed start t now s later h)
  step-Elapsed start t now activity s later h =
      guarded-Elapsed start now s.bound _ s (activity-Elapsed page start t now s later h)
        (later-Elapsed start t now s later h)
  step-Elapsed start t now scroll s later h =
      guarded-Elapsed start now s.bound _ s (activity-Elapsed page start t now s later h)
        (later-Elapsed start t now s later h)
  step-Elapsed start t now too_long s later h =
      guarded-Elapsed start now s.timers _ s (later-Elapsed start t now s later h)
        (later-Elapsed start t now s later h)

run-Elapsed :
    (bf : Payload → Option Payload) (start t : ℕ) (ms : List Moment) (s : Session)
    → Ordered t ms
    → Elapsed start t s
    → Elapsed start (last_now t ms) (run bf ms s)
run-Elapsed bf start t [] s o h = h
run-Elapsed bf start t (m ∷ ms) s (later, o) h =
    run-Elapsed bf start m.now ms (act bf m s) o
      (step-Elapsed bf m.page m.sections start t m.now m.event s later h)

begin-Elapsed : (page : Page) (created now : ℕ) → Elapsed now now (begin page created now)
unfolding begin
begin-Elapsed page created now =
    Same-Elapsed now now (fresh page created now) (begin page created now)
      (scroll-Same page (fresh page created now)) (ground arith)

install-Elapsed :
    (start t : ℕ) (started : Started) (s : Session)
    → Elapsed start t s
    → Elapsed start t (install started s)
unfolding install
install-Elapsed start t started s h = h

-- Whatever happens to a session, and in whatever order, before its row is made and after, the reading
-- time that it has counted is never more than the time that has passed since it began.
pub run-active_ms :
    (bf : Payload → Option Payload) (page : Page) (created now : ℕ) (started : Started)
    (before after : List Moment)
    → Ordered now before
    → Ordered (last_now now before) after
    → now + (run bf after (install started (run bf before (begin page created now)))).active_ms
      ≤ last_now (last_now now before) after
run-active_ms bf page created now started before after o q =
    let s0 = begin page created now in
    let s1 = run bf before s0 in
    let at_row =
      install-Elapsed now (last_now now before) started s1
        (run-Elapsed bf now now before s0 o (begin-Elapsed page created now)) in
    bounded now (last_now (last_now now before) after) (run bf after (install started s1))
      (run-Elapsed bf now (last_now now before) after (install started s1) q at_row)
  where
    bounded : (start t : ℕ) (s : Session) → Elapsed start t s → start + s.active_ms ≤ t
    bounded start t s (h, k) = omega arith
