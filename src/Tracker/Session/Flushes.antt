-- ===== src/Tracker/Session/Flushes.antt =====
-- The requests of a session over a run of events, and the mutex.
use htmlradar.Common.{
  ℕ, ◌+◌, ◌≡◌, refl, sym, ◌∙◌, ap, Bool, true, false, not, Option, none, some, List, [], ◌∷◌, arith,
  max,
}
use htmlradar.Tracker.Session.{
  Session, Page, Payload, SectionInfo, Started, Ratio, Event, hidden, visible, page_hide, activity,
  scroll, heartbeat, api_flush, api_opt_out, too_long, frame, answered, Answer, accepted,
  invalid_token, failed, step, tick_active, credit, update_max_scroll, reach, flush, flush_ready,
  flush_started, leave, on_frame, flushed, stop, guarded, whole,
}
use htmlradar.Tracker.Session.Active.{Moment, act, run}

abbrev pub bit : Bool → ℕ
bit true = 1
bit false = 0

abbrev pub sent_now : Option Payload → ℕ
sent_now none = 0
sent_now (some p) = 1

-- An answer counts only if a request waits for it.
abbrev pub answered_now : Event → Session → ℕ
answered_now (answered a) s = bit s.flushing
answered_now _ s = 0

module _ (before_flush : Payload → Option Payload) where
  abbrev pub sent : List Moment → Session → ℕ
  sent [] s = 0
  sent (m ∷ ms) s =
      sent_now (step before_flush m.page m.now m.sections m.event s).1
      + sent ms (act before_flush m s)

  abbrev pub answers : List Moment → Session → ℕ
  answers [] s = 0
  answers (m ∷ ms) s = answered_now m.event s + answers ms (act before_flush m s)

reach-flushing : (ratio : Ratio) (s : Session) → (reach ratio s).flushing ≡ s.flushing
unfolding reach
reach-flushing ratio s = ground arith

scroll-flushing : (page : Page) (s : Session) → (update_max_scroll page s).flushing ≡ s.flushing
unfolding update_max_scroll
scroll-flushing page s =
    let full = reach-flushing whole s in
    let part =
      reach-flushing
        (record {
          num = max page.scroll_y (max page.element_top page.body_top);
          den = page.doc_height;
        })
        s in
    ground (arith, full, part)

tick-flushing : (now : ℕ) (s : Session) → (tick_active now s).flushing ≡ s.flushing
unfolding tick_active credit
tick-flushing now s = ground arith

-- What a step adds to the count of requests, it adds to the mutex.
abbrev Balanced : ℕ → Session → Session × Option Payload → Type 0
Balanced n s r = bit s.flushing + sent_now r.1 ≡ n + bit r.0.flushing

guarded-Balanced :
    (b : Bool) (r : Session × Option Payload) (s : Session)
    → Balanced 0 s r
    → Balanced 0 s (guarded b r s)
guarded-Balanced true r s h = h
guarded-Balanced false r s h = omega arith

module _ (bf : Payload → Option Payload) where
  ready-Balanced :
      (started : Started) (sections : List SectionInfo) (s : Session)
      → s.flushing ≡ true
      → sent_now (flush_ready bf started sections s).1
        ≡ bit (flush_ready bf started sections s).0.flushing
  unfolding flush_ready
  ready-Balanced started sections s h = ground arith

  flush_started-Balanced :
      (page : Page) (now : ℕ) (sections : List SectionInfo) (o : Option Started) (s : Session)
      → s.flushing ≡ false
      → Balanced 0 s (flush_started bf page now sections o s)
  unfolding flush_started
  flush_started-Balanced page now sections none s h = omega arith
  flush_started-Balanced page now sections (some started) s h =
      let marked = tick_active now (record s { flushing = true }) in
      let held : (update_max_scroll page marked).flushing ≡ true =
        scroll-flushing page marked ∙ tick-flushing now (record s { flushing = true }) in
      let same_count = ready-Balanced started sections (update_max_scroll page marked) held in
      rw (h, same_count) refl

  flush-Balanced :
      (page : Page) (now : ℕ) (sections : List SectionInfo) (s : Session)
      → Balanced 0 s (flush bf page now sections s)
  unfolding flush
  flush-Balanced page now sections s = by s.flushing refl
    where
      by :
          (b : Bool)
          → s.flushing ≡ b
          → Balanced 0 s (guarded (not b) (flush_started bf page now sections s.started s) s)
      by true h = omega arith
      by false h = flush_started-Balanced page now sections s.started s h

  leave-flushing : (now : ℕ) (s : Session) → (leave now s).flushing ≡ s.flushing
  unfolding leave
  leave-flushing now s = tick-flushing now s

  left-Balanced :
      (page : Page) (now : ℕ) (sections : List SectionInfo) (s : Session)
      → Balanced 0 s (flush bf page now sections (leave now s))
  left-Balanced page now sections s =
      ap (λ b. bit b + sent_now (flush bf page now sections (leave now s)).1)
        (sym (leave-flushing now s))
      ∙ flush-Balanced page now sections (leave now s)

  frame-Balanced : (page : Page) (s : Session) → Balanced 0 s (on_frame page s, none)
  unfolding on_frame
  frame-Balanced page s =
      let e = scroll-flushing page (record s { raf_scheduled = false }) in
      ap (λ b. bit b + 0) (sym e) ∙ refl_add (bit (on_frame page s).flushing)
    where
      refl_add : (n : ℕ) → n + 0 ≡ 0 + n
      refl_add n = omega arith

  answer_frees : (a : Answer) (s : Session) → (flushed a s).flushing ≡ false
  unfolding flushed stop
  answer_frees accepted s = refl
  answer_frees invalid_token s = refl
  answer_frees failed s = refl

  answer-Balanced :
      (a : Answer) (s : Session)
      → Balanced (bit s.flushing) s (guarded s.flushing (flushed a s, none) s)
  answer-Balanced a s = by s.flushing refl
    where
      by :
          (b : Bool)
          → s.flushing ≡ b
          → Balanced (bit s.flushing) s (guarded b (flushed a s, none) s)
      by true h = let e = answer_frees a s in ap (λ b. bit s.flushing + bit b) (sym e)
      by false h = rw h refl

  stop-Balanced : (s : Session) → Balanced 0 s (stop s, none)
  unfolding stop
  stop-Balanced s = omega arith

  step-Balanced :
      (page : Page) (now : ℕ) (sections : List SectionInfo) (e : Event) (s : Session)
      → Balanced (answered_now e s) s (step bf page now sections e s)
  unfolding step
  step-Balanced page now sections hidden s =
      guarded-Balanced s.bound _ s (left-Balanced page now sections s)
  step-Balanced page now sections page_hide s =
      guarded-Balanced s.bound _ s (left-Balanced page now sections s)
  step-Balanced page now sections heartbeat s =
      guarded-Balanced s.timers _ s (flush-Balanced page now sections s)
  step-Balanced page now sections api_flush s = flush-Balanced page now sections s
  step-Balanced page now sections api_opt_out s = stop-Balanced s
  step-Balanced page now sections visible s = guarded-Balanced s.bound _ s (omega arith)
  step-Balanced page now sections activity s = guarded-Balanced s.bound _ s (omega arith)
  step-Balanced page now sections scroll s = guarded-Balanced s.bound _ s (omega arith)
  step-Balanced page now sections too_long s = guarded-Balanced s.timers _ s (omega arith)
  step-Balanced page now sections frame s =
      guarded-Balanced s.raf_scheduled _ s (frame-Balanced page s)
  step-Balanced page now sections (answered a) s = answer-Balanced a s

-- At most one request is ever on its way: over any run of events, the requests that were sent are
-- those that were answered and the one that the mutex stands for.
pub run-flushing :
    (bf : Payload → Option Payload) (ms : List Moment) (s : Session)
    → bit s.flushing + sent bf ms s ≡ answers bf ms s + bit (run bf ms s).flushing
run-flushing bf [] s = omega arith
run-flushing bf (m ∷ ms) s =
    let here = step-Balanced bf m.page m.now m.sections m.event s in
    let rest = run-flushing bf ms (act bf m s) in omega arith
