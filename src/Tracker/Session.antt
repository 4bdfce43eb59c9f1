-- ===== src/Tracker/Session.antt =====
-- packages/tracker/src/session.ts: one reading session. An instant is `performance.now()` in whole
-- milliseconds; what the methods read from the page is the record `Page`, taken when an event
-- arrives. A flush is two steps, the part up to the request and the part behind its answer, with any
-- events in between. The sections are what sections-v2.ts reports at the flush.
pub mod Active
pub mod Flushes
pub mod Idle
pub mod Stopped
use htmlradar.Common.{
  ℕ, ◌+◌, ◌-◌, ◌*◌, ◌/◌, min, max, Bool, true, false, not, ◌&&◌, ◌||◌, Option, none, some, List, [],
  ◌∷◌, Text, if◌then◌else◌, ltb, leb, ◌==◌, is_some,
}

-- `time_ms` is `timeSeconds`, a multiple of a thousandth.
pub record SectionInfo : Type 0 where
  pub id : Text
  pub title : Text
  pub depth : ℕ
  pub ordinal : ℕ
  pub time_ms : ℕ

-- A scroll depth, as a fraction.
pub record Ratio : Type 0 where
  pub num : ℕ
  pub den : ℕ

abbrev pub whole : Ratio
whole = record { num = 1; den = 1 }

abbrev pub exceeds : Ratio → Ratio → Bool
exceeds a b = ltb (b.num * a.den) (a.num * b.den)

pub record Payload : Type 0 where
  pub session_id : Text
  pub token : Text
  pub active_seconds : ℕ
  pub max_scroll_depth : Ratio
  pub sections : List SectionInfo

-- What `startSession` answers, as far as the session keeps it.
pub record Started : Type 0 where
  pub session_id : Text
  pub token : Text

pub record Session : Type 0 where
  pub started : Option Started
  pub active_ms : ℕ
  pub running_since : Option ℕ
  pub last_activity_ms : ℕ
  pub max_scroll : Ratio
  pub timers : Bool
  pub flushing : Bool
  pub dirty : Bool
  pub raf_scheduled : Bool
  pub bound : Bool

-- `document.hidden`, the scroll height less the client height, and the three scroll positions.
pub record Page : Type 0 where
  pub is_hidden : Bool
  pub doc_height : ℕ
  pub scroll_y : ℕ
  pub element_top : ℕ
  pub body_top : ℕ

abbrev pub idle_threshold_ms : ℕ
idle_threshold_ms = 5000

-- `tickActive`
credit : ℕ → ℕ → Session → Session
credit now since s =
    let idle_at = s.last_activity_ms + idle_threshold_ms in
    let effective = min now idle_at in
    let s1 =
      if ltb since effective
      then record s { active_ms = s.active_ms + (effective - since); dirty = true }
      else s in
    record s1 { running_since = if leb now idle_at then some now else none }

unfoldable pub tick_active : ℕ → Session → Session
unfolding credit
tick_active now s = elim s.running_since [ none ↦ s | some since ↦ credit now since s ]

reach : Ratio → Session → Session
reach ratio s =
    if exceeds ratio s.max_scroll then record s { max_scroll = ratio; dirty = true } else s

-- `updateMaxScroll`
unfoldable pub update_max_scroll : Page → Session → Session
unfolding reach
update_max_scroll page s =
    let scrolled = max page.scroll_y (max page.element_top page.body_top) in
    if page.doc_height == 0
    then reach whole s
    else if leb page.doc_height scrolled
    then reach whole s
    else reach (record { num = scrolled; den = page.doc_height }) s

-- `onActivity`
unfoldable pub on_activity : Page → ℕ → Session → Session
on_activity page now s = record s {
  last_activity_ms = now;
  running_since =
      if not (is_some s.running_since) && not page.is_hidden then some now else s.running_since;
}

-- `onScroll`, and the frame that it asks for.
unfoldable pub on_scroll : Page → ℕ → Session → Session
unfolding on_activity
on_scroll page now s = record (on_activity page now s) { raf_scheduled = true }

unfoldable pub on_frame : Page → Session → Session
unfolding update_max_scroll
on_frame page s = update_max_scroll page (record s { raf_scheduled = false })

-- `stop`
unfoldable pub stop : Session → Session
stop s = record s { timers = false; bound = false }

-- The payload of a flush, and what `beforeFlush` makes of it.
payload_of : Started → List SectionInfo → Session → Payload
payload_of started sections s = record {
  session_id = started.session_id;
  token = started.token;
  active_seconds = (s.active_ms + 500) / 1000;
  max_scroll_depth = s.max_scroll;
  sections = sections;
}

abbrev no_sections : List SectionInfo → Bool
no_sections [] = true
no_sections (x ∷ xs) = false

-- `if (…) return`
abbrev pub guarded : Bool → Session × Option Payload → Session → Session × Option Payload
guarded true done s = done
guarded false done s = (s, none)

module _ (before_flush : Payload → Option Payload) where
  -- `flush` up to its request: the session with the mutex taken, and what is sent; a flush that
  -- sends nothing has given the mutex back.
  flush_ready : Started → List SectionInfo → Session → Session × Option Payload
  unfolding payload_of
  flush_ready started sections s =
      if no_sections sections && not s.dirty
      then (record s { flushing = false }, none)
      else elim (before_flush (payload_of started sections s)) [
        | none ↦ (record s { flushing = false }, none)
        | some sent ↦ (s, some sent)
      ]

  flush_started : Page → ℕ → List SectionInfo → Option Started → Session → Session × Option Payload
  unfolding flush_ready tick_active update_max_scroll
  flush_started page now sections none s = (s, none)
  flush_started page now sections (some started) s =
      flush_ready started sections
        (update_max_scroll page (tick_active now (record s { flushing = true })))

  unfoldable pub flush : Page → ℕ → List SectionInfo → Session → Session × Option Payload
  unfolding flush_started
  flush page now sections s =
      guarded (not s.flushing) (flush_started page now sections s.started s) s

-- How `updateSession` ends.
pub data Answer : Type 0 where
  accepted invalid_token failed : Answer

-- `flush` behind its request.
unfoldable pub flushed : Answer → Session → Session
unfolding stop
flushed accepted s = record s { dirty = false; flushing = false }
flushed invalid_token s = record (stop s) { flushing = false }
flushed failed s = record s { flushing = false }

-- `onVisibility` and `onPageHide`, up to the flush that they end with.
unfoldable pub leave : ℕ → Session → Session
unfolding tick_active
leave now s = record (tick_active now s) { running_since = none }

unfoldable pub come_back : ℕ → Session → Session
come_back now s = record s { last_activity_ms = now; running_since = some now }

-- What may happen to a session, at an instant and on a page: the last two are calls of the page, the
-- `flush` and the `optOut` of `window.HTMLRadar` (api.ts).
pub data Event : Type 0 where
  hidden visible page_hide activity scroll heartbeat too_long frame : Event
  api_flush api_opt_out : Event
  answered : Answer → Event

-- `start`: whether a session is opened at all, the state before its request, and behind it.
unfoldable pub opens : (pre_started hidden_first hidden_later : Bool) → Bool
opens pre_started hidden_first hidden_later =
    if pre_started then true else not hidden_first && not hidden_later

-- The listeners are bound, and the clock runs if the page is seen.
abbrev pub fresh : Page → ℕ → ℕ → Session
fresh page created now = record {
  started = none;
  active_ms = 0;
  running_since = if page.is_hidden then none else some now;
  last_activity_ms = created;
  max_scroll = record { num = 0; den = 1 };
  timers = false;
  flushing = false;
  dirty = false;
  raf_scheduled = false;
  bound = true;
}

unfoldable pub begin : Page → ℕ → ℕ → Session
unfolding update_max_scroll
begin page created now = update_max_scroll page (fresh page created now)

unfoldable pub install : Started → Session → Session
install started s = record s { started = some started; timers = true }

module _ (before_flush : Payload → Option Payload) where
  -- A listener hears an event only while it is bound, a timer fires only while it is set, and an
  -- answer comes only to a request; the calls of the page come at any time.
  unfoldable pub step : Page → ℕ → List SectionInfo → Event → Session → Session × Option Payload
  unfolding flush leave come_back on_activity on_scroll on_frame flushed stop
  step page now sections hidden s =
      guarded s.bound (flush before_flush page now sections (leave now s)) s
  step page now sections visible s = guarded s.bound (come_back now s, none) s
  step page now sections page_hide s =
      guarded s.bound (flush before_flush page now sections (leave now s)) s
  step page now sections activity s = guarded s.bound (on_activity page now s, none) s
  step page now sections scroll s = guarded s.bound (on_scroll page now s, none) s
  step page now sections heartbeat s = guarded s.timers (flush before_flush page now sections s) s
  step page now sections api_flush s = flush before_flush page now sections s
  step page now sections api_opt_out s = (stop s, none)
  step page now sections too_long s = guarded s.timers (stop s, none) s
  step page now sections frame s = guarded s.raf_scheduled (on_frame page s, none) s
  step page now sections (answered a) s = guarded s.flushing (flushed a s, none) s
