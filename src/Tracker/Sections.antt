-- ===== src/Tracker/Sections.antt =====
-- packages/tracker/src/sections-v2.ts: the sampler, which credits time to the section that is being
-- read. Pixels and instants are whole; positions are counted from a point above the document, where the
-- source counts from the window, since only differences are used. Which sections there are is an input.
pub mod Credit
pub mod Winner
use htmlradar.Common.{
  ℕ, zero, suc, ◌+◌, ◌-◌, ◌*◌, min, max, Text, Option, none, some, List, [], ◌∷◌, Bool, true, false,
  not, ◌&&◌, ◌||◌, if◌then◌else◌, ltb, leb, any, includes, is_some, map,
}
use htmlradar.Tracker.Session.{SectionInfo}

abbrev pub sample_interval_ms : ℕ
sample_interval_ms = 250

abbrev pub activity_idle_ms : ℕ
activity_idle_ms = 5000

abbrev pub qualified_dwell_ms : ℕ
qualified_dwell_ms = 1000

pub record Section : Type 0 where
  pub id : Text
  pub title : Text
  pub depth : ℕ
  pub ordinal : ℕ
  pub end_ordinal : ℕ
  pub total_ms : ℕ
  pub qualified_ms : ℕ
  pub continuous_visible_ms : ℕ
  pub has_read_fired : Bool

-- `unionRect` of a section's members, and the visible part of the page.
pub record Range : Type 0 where
  pub top : ℕ
  pub bottom : ℕ

pub record Window : Type 0 where
  pub offset : ℕ
  pub height : ℕ

-- The fraction of a section that is on screen: `part / whole`.
pub record Fraction : Type 0 where
  pub part : ℕ
  pub whole : ℕ

unfoldable pub coverage : Window → Range → Fraction
coverage vp range = record {
  part = min range.bottom (vp.offset + vp.height) - max range.top vp.offset;
  whole = min (range.bottom - range.top) vp.height;
}

-- `fraction >= MIN_COVERAGE`, which is one half; a section without height has the fraction 0.
abbrev pub is_visible : Fraction → Bool
is_visible f = ltb 0 f.whole && leb f.whole (2 * f.part)

-- `f > g`
abbrev pub covers_more : Fraction → Fraction → Bool
covers_more f g = ltb (g.part * f.whole) (f.part * g.whole)

-- A section in a sample, with its fraction while it is a candidate.
pub record Seen : Type 0 where
  pub section : Section
  pub fraction : Option Fraction

abbrev pub without_streak : Section → Section
without_streak s = record s { continuous_visible_ms = 0 }

-- The first loop of `sample`.
unfoldable pub measured : Window → Range → Section → Seen
unfolding coverage
measured vp range s =
    let f = coverage vp range in
    if is_visible f
    then record { section = s; fraction = some f }
    else record { section = without_streak s; fraction = none }

abbrev pub is_candidate : Seen → Bool
is_candidate c = is_some c.fraction

-- `enclosesACandidate`
abbrev pub encloses_a_candidate : List Seen → Section → Bool
encloses_a_candidate seen s =
    any
      (λ o.
        is_candidate o && ltb s.ordinal o.section.ordinal && ltb o.section.ordinal s.end_ordinal)
      seen

-- The second loop: a candidate that encloses another is out, and the others go on with their streak.
unfoldable pub raced : ℕ → List Seen → Seen → Seen
raced dt seen c =
    if not (is_candidate c)
    then c
    else if encloses_a_candidate seen c.section
    then record { section = without_streak c.section; fraction = none }
    else record {
      section = record c.section { continuous_visible_ms = c.section.continuous_visible_ms + dt };
      fraction = c.fraction;
    }

-- The place of the winner: of two that cover the same, the earlier.
unfoldable pub better : ℕ → Fraction → Option (ℕ × Fraction) → Option (ℕ × Fraction)
better i f none = some (i, f)
better i f (some (j, g)) = if covers_more f g then some (i, f) else some (j, g)

unfoldable pub challenge : ℕ → Option Fraction → Option (ℕ × Fraction) → Option (ℕ × Fraction)
unfolding better
challenge i none best = best
challenge i (some f) best = better i f best

unfoldable pub winner : ℕ → List Seen → Option (ℕ × Fraction) → Option (ℕ × Fraction)
unfolding challenge
winner i [] best = best
winner i (c ∷ cs) best = winner (suc i) cs (challenge i c.fraction best)

-- What the winner is credited.
unfoldable pub credited : ℕ → ℕ → Section → Section
credited min_dwell dt s =
    let total = s.total_ms + dt in
    let qualified = s.qualified_ms + dt in
    if leb qualified_dwell_ms s.continuous_visible_ms
    then record s {
      total_ms = total;
      qualified_ms = qualified;
      has_read_fired = s.has_read_fired || leb min_dwell qualified;
    }
    else record s { total_ms = total }

unfoldable pub credit_at : ℕ → ℕ → ℕ → List Section → List Section
unfolding credited
credit_at min_dwell dt i [] = []
credit_at min_dwell dt zero (s ∷ l) = credited min_dwell dt s ∷ l
credit_at min_dwell dt (suc i) (s ∷ l) = s ∷ credit_at min_dwell dt i l

unfoldable pub settle_sample : ℕ → ℕ → Option (ℕ × Fraction) → List Section → List Section
unfolding credit_at
settle_sample min_dwell dt none l = l
settle_sample min_dwell dt (some (i, f)) l = credit_at min_dwell dt i l

-- The tracker; `scheduled` is that an animation frame is asked for.
pub record SectionTracker : Type 0 where
  pub min_dwell_ms : ℕ
  pub sections : List Section
  pub is_active : Bool
  pub scheduled : Bool
  pub last_sample_ts : ℕ
  pub last_activity_ts : ℕ
  pub entered_once : List Text

-- The layout at a sample: where each section is, by its ordinal.
pub record Layout : Type 0 where
  pub window : Window
  pub range_of : ℕ → Range
  pub is_shown : Bool

abbrev pub first_pass : Layout → List Section → List Seen
first_pass page l = map (λ s. measured page.window (page.range_of s.ordinal) s) l

abbrev pub second_pass : ℕ → List Seen → List Seen
second_pass dt seen = map (raced dt seen) seen

-- `enteredOnce` takes the candidates in.
unfoldable pub entered : List Seen → List Text → List Text
entered [] ids = ids
entered (c ∷ cs) ids =
    entered cs
      (if is_candidate c && not (includes ids c.section.id) then c.section.id ∷ ids else ids)

unfoldable pub sampled : ℕ → Layout → ℕ → List Section → List Section
unfolding measured raced winner settle_sample
sampled min_dwell page dt l =
    let race = second_pass dt (first_pass page l) in
    settle_sample min_dwell dt (winner 0 race none) (map (λ c. c.section) race)

unfoldable pub sample : Layout → ℕ → SectionTracker → SectionTracker
unfolding sampled entered
sample page dt t = if leb page.window.height 0 then t else record t {
  sections = sampled t.min_dwell_ms page dt t.sections;
  entered_once = entered (first_pass page t.sections) t.entered_once;
}

unfoldable pub tick : Layout → ℕ → SectionTracker → SectionTracker
unfolding sample
tick page ts t =
    let elapsed = ts - t.last_sample_ts in
    if not t.is_active
    then t
    else if not (page.is_shown && ltb (ts - t.last_activity_ts) activity_idle_ms)
    then record t { last_sample_ts = ts; scheduled = true }
    else if leb sample_interval_ms elapsed
    then sample page (min elapsed (sample_interval_ms * 2))
        (record t { last_sample_ts = ts; scheduled = true })
    else record t { scheduled = true }

unfoldable pub start : ℕ → SectionTracker → SectionTracker
start now t = if t.is_active then t else record t {
  is_active = true;
  last_sample_ts = now;
  last_activity_ts = now;
  scheduled = true;
}

unfoldable pub stop_sections : SectionTracker → SectionTracker
stop_sections t = if not t.is_active then t else record t { is_active = false; scheduled = false }

unfoldable pub pause : SectionTracker → SectionTracker
pause t = record t { scheduled = false }

unfoldable pub resume : ℕ → SectionTracker → SectionTracker
resume now t = if not t.is_active then t else if t.scheduled then t else record t {
  last_sample_ts = now;
  last_activity_ts = now;
  sections = map without_streak t.sections;
  scheduled = true;
}

abbrev info_of : Section → SectionInfo
info_of s = record {
  id = s.id;
  title = s.title;
  depth = s.depth;
  ordinal = s.ordinal;
  time_ms = s.qualified_ms;
}

unfoldable pub reported : List Text → List Section → List SectionInfo
reported ids [] = []
reported ids (s ∷ l) =
    let rest = reported ids l in if includes ids s.id then info_of s ∷ rest else rest

unfoldable pub snapshot : SectionTracker → List SectionInfo
unfolding reported
snapshot t = reported t.entered_once t.sections

-- What happens to the tracker.
pub data Happening : Type 0 where
  frame : Layout → Happening
  activity paused resumed stopped : Happening

-- A frame comes only while one is asked for.
unfoldable pub happen : Happening → ℕ → SectionTracker → SectionTracker
unfolding tick pause resume stop_sections
happen (frame page) now t = if t.scheduled then tick page now t else t
happen activity now t = record t { last_activity_ts = now }
happen paused now t = pause t
happen resumed now t = resume now t
happen stopped now t = stop_sections t
