-- ===== src/Tracker/Tests.antt =====
-- One session on concrete events.
use htmlradar.Common.{
  ◌==◌, if◌then◌else◌, ◌-◌, ℕ, ◌+◌, ◌≤◌, ◌≡◌, refl, true, false, some, List, [], ◌∷◌, codes, arith,
  ◌*◌, includes, same, Text,
}
use htmlradar.Tracker.Session.{
  Session, Page, Started, Event, hidden, scroll, activity, heartbeat, api_flush, flush, flushed,
  stop, answered, accepted, invalid_token, begin, install, step,
}
use htmlradar.Tracker.Session.Active.{Moment, run, run-active_ms}
use htmlradar.Tracker.Session.Idle.{run-idle}
use htmlradar.Tracker.Sections.{
  Section, SectionTracker, Layout, Happening, frame, paused, resumed, start, snapshot,
}
use htmlradar.Tracker.Sections.{winner, first_pass, second_pass, raced, measured, coverage}
use htmlradar.Tracker.Sections.Winner.{IsRead, winner-IsRead}
use htmlradar.Common.{none}
use htmlradar.Tracker.Sections.Credit.{clock, time_of, total_of, run-snapshot}
use htmlradar.Tracker.Sections.Credit
use htmlradar.Tracker.Session.Flushes.{bit, sent, answers, run-flushing}
use htmlradar.Tracker.Session.Stopped.{run-invalid_token}

abbrev page : Page
page = record {
  is_hidden = false;
  doc_height = 2000;
  scroll_y = 500;
  element_top = 0;
  body_top = 0;
}

abbrev started : Started
started = record { session_id = codes "s"; token = codes "t" }

abbrev at_time : ℕ → Event → Moment
at_time now event = record { page = page; now = now; sections = []; event = event }

abbrev opened : Session
opened = install started (begin page 0 100)

-- Two seconds of reading, a flush, its answer, and a long silence.
abbrev reading : List Moment
reading =
    at_time 2100 activity
    ∷ at_time 3100 heartbeat
    ∷ at_time 3200 (answered accepted)
    ∷ at_time 90000 heartbeat
    ∷ []

reading-run :
    ((run some reading opened).active_ms ≡ 7000)
    × (sent some reading opened ≡ 2)
    × (answers some reading opened ≡ 1)
unfolding step begin install
reading-run = (refl, refl, refl)

run-active_ms_example :
    100
      + (run some reading
          (install started (run some (at_time 900 scroll ∷ []) (begin page 0 100)))).active_ms
    ≤ 90000
run-active_ms_example =
    run-active_ms some page 0 100 started (at_time 900 scroll ∷ []) reading (omega arith, tt)
      (omega arith, (omega arith, (omega arith, (omega arith, tt))))

run-flushing_example :
    bit opened.flushing + sent some reading opened
    ≡ answers some reading opened + bit (run some reading opened).flushing
run-flushing_example = run-flushing some reading opened

abbrev waiting : Session
waiting = record opened { flushing = true }

run-invalid_token_example :
    (sent some reading (step some page 200 [] (answered invalid_token) waiting).0 ≡ 0)
    × ((run some reading (step some page 200 [] (answered invalid_token) waiting).0).active_ms
        ≡ waiting.active_ms)
run-invalid_token_example =
    run-invalid_token some page 200 [] reading waiting refl (refl, (refl, (refl, (refl, tt))))

-- The page's own flush is sent after all, and counts the time since.
asked_after :
    sent some
      (at_time 3000 api_flush ∷ [])
      (step some page 200 [] (answered invalid_token) waiting).0
    ≡ 1
unfolding step flush begin install flushed stop
asked_after = refl

-- A heartbeat and a minute of silence.
abbrev silence : List Moment
silence = at_time 3100 heartbeat ∷ at_time 60000 hidden ∷ []

run-idle_example :
    (run some silence opened).active_ms ≤ opened.active_ms + (opened.last_activity_ms + 5000 - 100)
unfolding begin install
run-idle_example =
    run-idle some 100 100 silence opened refl (omega arith) (omega arith, (omega arith, tt))
      (refl, (refl, tt))

-- A deck of two slides, the first of which fills the window.
abbrev slide : Text → ℕ → Section
slide id n = record {
  id = id;
  title = codes "Slide";
  depth = 0;
  ordinal = n;
  end_ordinal = n + 1;
  total_ms = 0;
  qualified_ms = 0;
  continuous_visible_ms = 0;
  has_read_fired = false;
}

abbrev slides : SectionTracker
slides = record {
  min_dwell_ms = 2000;
  sections = slide (codes "slide-1") 0 ∷ slide (codes "slide-2") 1 ∷ [];
  is_active = false;
  scheduled = false;
  last_sample_ts = 0;
  last_activity_ts = 0;
  entered_once = [];
}

abbrev layout : Layout
layout = record {
  window = record { offset = 0; height = 800 };
  range_of = λ n. record { top = n * 800; bottom = n * 800 + 800 };
  is_shown = true;
}

-- Five frames, a pause, and a frame after it.
abbrev looking : List (ℕ × Happening)
looking =
    (300, frame layout)
    ∷ (300, frame layout)
    ∷ (300, frame layout)
    ∷ (300, frame layout)
    ∷ (300, frame layout)
    ∷ (10, paused)
    ∷ (9000, resumed)
    ∷ (300, frame layout)
    ∷ []

run-snapshot_example :
    time_of (snapshot (Credit.run 50 looking (start 50 slides))) + 50 ≤ clock 50 looking
run-snapshot_example = run-snapshot 50 looking slides refl refl (omega arith, (omega arith, tt))

looking_total : total_of (Credit.run 50 looking (start 50 slides)).sections ≡ 1800
unfolding Credit.run start
looking_total = refl

looking_reported : time_of (snapshot (Credit.run 50 looking (start 50 slides))) ≡ 600
unfolding Credit.run start snapshot includes same
looking_reported = refl

abbrev two_slides : List Section
two_slides = slide (codes "slide-1") 0 ∷ slide (codes "slide-2") 1 ∷ []

first_wins :
    winner 0 (second_pass 250 (first_pass layout two_slides)) none
    ≡ some (0, record { part = 800; whole = 800 })
unfolding winner raced measured coverage
first_wins = refl

winner-IsRead_example : IsRead layout two_slides 0 (record { part = 800; whole = 800 })
winner-IsRead_example =
    winner-IsRead 250 layout two_slides 0 (record { part = 800; whole = 800 }) first_wins

-- A short section stands over a long one, which covers the other seven eighths of the window.
abbrev uneven : Layout
uneven = record layout {
  range_of = λ n. record { top = n * 100; bottom = if n == 0 then 100 else 2000 };
}

short_section_wins :
    winner 0 (second_pass 250 (first_pass uneven two_slides)) none
    ≡ some (0, record { part = 100; whole = 100 })
unfolding winner raced measured coverage
short_section_wins = refl
