-- ===== src/Tracker/Sections/Credit.antt =====
-- The time of all sections together never exceeds the time that has passed.
use htmlradar.Common.{
  ℕ, zero, suc, ◌+◌, ◌-◌, ◌*◌, ◌≤◌, ◌≡◌, refl, min, Text, Option, none, some, List, [], ◌∷◌, true,
  false, not, ◌&&◌, ltb, leb, includes, map, All, if-both, arith,
}
use htmlradar.Tracker.Session.{SectionInfo}
use htmlradar.Tracker.Sections.{
  Section, Range, Window, Fraction, Seen, SectionTracker, Layout, Happening, frame, activity,
  paused, resumed, stopped, coverage, is_visible, is_candidate, without_streak, measured,
  encloses_a_candidate, raced, winner, credited, credit_at, settle_sample, first_pass, second_pass,
  sampled, sample, tick, start, pause, resume, stop_sections, snapshot, reported, happen,
  qualified_dwell_ms, sample_interval_ms, activity_idle_ms,
}

abbrev pub total_of : List Section → ℕ
total_of [] = 0
total_of (s ∷ l) = s.total_ms + total_of l

abbrev pub time_of : List SectionInfo → ℕ
time_of [] = 0
time_of (i ∷ l) = i.time_ms + time_of l

-- Qualified time is a part of the credited time.
abbrev pub IsSane : Section → Type 0
IsSane s = s.qualified_ms ≤ s.total_ms

-- A section whose times are those of another.
abbrev IsTimed : Section → Section → Type 0
IsTimed s t = (t.total_ms ≡ s.total_ms) × (t.qualified_ms ≡ s.qualified_ms)

measured-IsTimed : (vp : Window) (r : Range) (s : Section) → IsTimed s (measured vp r s).section
unfolding measured
measured-IsTimed vp r s =
    if-both (λ (c : Seen). IsTimed s c.section) (is_visible (coverage vp r)) _ _ (λ b. (refl, refl))
      (λ b. (refl, refl))

raced-IsTimed : (dt : ℕ) (seen : List Seen) (c : Seen) → IsTimed c.section (raced dt seen c).section
unfolding raced
raced-IsTimed dt seen c =
    if-both (λ (d : Seen). IsTimed c.section d.section) (not (is_candidate c)) _ _
      (λ b. (refl, refl))
      λ b.
        if-both (λ (d : Seen). IsTimed c.section d.section) (encloses_a_candidate seen c.section) _
          _ (λ e. (refl, refl)) (λ e. (refl, refl))

-- Lists of sections with the same times.
abbrev AreTimed : List Section → List Section → Type 0
AreTimed [] [] = Unit
AreTimed (s ∷ l) (t ∷ m) = IsTimed s t × AreTimed l m
AreTimed _ _ = ⊥

race-AreTimed :
    (dt : ℕ) (page : Layout) (seen : List Seen) (l : List Section)
    → AreTimed l (map (λ c. c.section) (map (raced dt seen) (first_pass page l)))
race-AreTimed dt page seen [] = tt
race-AreTimed dt page seen (s ∷ l) =
    let first = measured page.window (page.range_of s.ordinal) s in
    let (a, b) = measured-IsTimed page.window (page.range_of s.ordinal) s in
    let (c, d) = raced-IsTimed dt seen first in
    ((omega arith, omega arith), race-AreTimed dt page seen l)

streaks-AreTimed : (l : List Section) → AreTimed l (map without_streak l)
streaks-AreTimed [] = tt
streaks-AreTimed (s ∷ l) = ((refl, refl), streaks-AreTimed l)

AreTimed-total_of : (l m : List Section) → AreTimed l m → total_of m ≡ total_of l
AreTimed-total_of [] [] h = refl
AreTimed-total_of [] (t ∷ m) h = absurd h
AreTimed-total_of (s ∷ l) [] h = absurd h
AreTimed-total_of (s ∷ l) (t ∷ m) ((a, b), h) = omega (arith, AreTimed-total_of l m h)

AreTimed-IsSane : (l m : List Section) → AreTimed l m → All IsSane l → All IsSane m
AreTimed-IsSane [] [] h k = tt
AreTimed-IsSane [] (t ∷ m) h k = absurd h
AreTimed-IsSane (s ∷ l) [] h k = absurd h
AreTimed-IsSane (s ∷ l) (t ∷ m) ((a, b), h) (k, ks) = (omega arith, AreTimed-IsSane l m h ks)

-- The credit of one section.
abbrev IsPaid : ℕ → Section → Section → Type 0
IsPaid dt s t = (t.total_ms ≡ s.total_ms + dt) × (IsSane s → IsSane t)

credited-IsPaid : (min_dwell dt : ℕ) (s : Section) → IsPaid dt s (credited min_dwell dt s)
unfolding credited
credited-IsPaid min_dwell dt s =
    if-both (IsPaid dt s) (leb qualified_dwell_ms s.continuous_visible_ms) _ _
      (λ b. (refl, λ h. omega arith)) (λ b. (refl, λ h. omega arith))

-- One sample pays its time at most once, and to one section.
abbrev IsPaidOnce : ℕ → List Section → List Section → Type 0
IsPaidOnce dt l m = (total_of m ≤ total_of l + dt) × (All IsSane l → All IsSane m)

credit_at-IsPaidOnce :
    (min_dwell dt i : ℕ) (l : List Section) → IsPaidOnce dt l (credit_at min_dwell dt i l)
unfolding credit_at
credit_at-IsPaidOnce min_dwell dt i [] = (omega arith, λ h. h)
credit_at-IsPaidOnce min_dwell dt zero (s ∷ l) =
    let (a, b) = credited-IsPaid min_dwell dt s in (omega arith, λ (h, k). (b h, k))
credit_at-IsPaidOnce min_dwell dt (suc i) (s ∷ l) =
    let (a, b) = credit_at-IsPaidOnce min_dwell dt i l in (omega arith, λ (h, k). (h, b k))

settle_sample-IsPaidOnce :
    (min_dwell dt : ℕ) (w : Option (ℕ × Fraction)) (l : List Section)
    → IsPaidOnce dt l (settle_sample min_dwell dt w l)
unfolding settle_sample
settle_sample-IsPaidOnce min_dwell dt none l = (omega arith, λ h. h)
settle_sample-IsPaidOnce min_dwell dt (some (i, f)) l = credit_at-IsPaidOnce min_dwell dt i l

pub sampled-IsPaidOnce :
    (min_dwell : ℕ) (page : Layout) (dt : ℕ) (l : List Section)
    → IsPaidOnce dt l (sampled min_dwell page dt l)
unfolding sampled
sampled-IsPaidOnce min_dwell page dt l =
    let seen = first_pass page l in
    let timed = race-AreTimed dt page seen l in
    let raced_sections = map (λ c. c.section) (second_pass dt seen) in
    let (a, b) =
      settle_sample-IsPaidOnce min_dwell dt (winner 0 (second_pass dt seen) none) raced_sections in
    let same_total = AreTimed-total_of l raced_sections timed in
    (omega arith, λ h. b (AreTimed-IsSane l raced_sections timed h))

-- What holds of a tracker that began at an instant, at a later one.
abbrev pub IsKept : ℕ → ℕ → SectionTracker → Type 0
IsKept begun now t =
    (total_of t.sections + begun ≤ t.last_sample_ts)
    × (t.last_sample_ts ≤ now)
    × All IsSane t.sections

module _ (begun now later : ℕ) (l : now ≤ later) (t : SectionTracker) (h : IsKept begun now t) where
  sample-IsKept :
      (page : Layout) (dt : ℕ)
      → dt ≤ later - t.last_sample_ts
      → IsKept begun later (sample page dt (record t { last_sample_ts = later; scheduled = true }))
  unfolding sample
  sample-IsKept page dt d =
      let (a, b) = sampled-IsPaidOnce t.min_dwell_ms page dt t.sections in
      if-both (IsKept begun later) (leb page.window.height 0) _ _
        (λ e. (omega (arith, h.0, h.1), omega arith, h.2))
        (λ e. (omega (arith, h.0, h.1), omega arith, b h.2))

  tick-IsKept : (page : Layout) → IsKept begun later (tick page later t)
  unfolding tick
  tick-IsKept page =
      if-both (IsKept begun later) (not t.is_active) _ _ (λ a. (h.0, omega (arith, h.1), h.2))
        λ a.
          if-both (IsKept begun later)
            (not (page.is_shown && ltb (later - t.last_activity_ts) activity_idle_ms)) _ _
            (λ b. (omega (arith, h.0, h.1), omega arith, h.2))
            λ b.
              if-both (IsKept begun later) (leb sample_interval_ms (later - t.last_sample_ts)) _ _
                (λ c.
                  sample-IsKept page (min (later - t.last_sample_ts) (sample_interval_ms * 2))
                    (omega arith))
                (λ c. (h.0, omega (arith, h.1), h.2))

  resume-IsKept : IsKept begun later (resume later t)
  unfolding resume
  resume-IsKept =
      let timed = streaks-AreTimed t.sections in
      let same_total = AreTimed-total_of t.sections (map without_streak t.sections) timed in
      let sane = AreTimed-IsSane t.sections (map without_streak t.sections) timed h.2 in
      if-both (IsKept begun later) (not t.is_active) _ _ (λ a. (h.0, omega (arith, h.1), h.2))
        λ a.
          if-both (IsKept begun later) t.scheduled _ _ (λ b. (h.0, omega (arith, h.1), h.2))
            λ b. (omega (arith, h.0, h.1), omega arith, sane)

  happen-IsKept : (x : Happening) → IsKept begun later (happen x later t)
  unfolding happen pause stop_sections
  happen-IsKept (frame page) =
      if-both (IsKept begun later) t.scheduled _ _ (λ b. tick-IsKept page)
        (λ b. (h.0, omega (arith, h.1), h.2))
  happen-IsKept activity = (h.0, omega (arith, h.1), h.2)
  happen-IsKept paused = (h.0, omega (arith, h.1), h.2)
  happen-IsKept resumed = resume-IsKept
  happen-IsKept stopped =
      if-both (IsKept begun later) (not t.is_active) _ _ (λ b. (h.0, omega (arith, h.1), h.2))
        (λ b. (h.0, omega (arith, h.1), h.2))

-- What happens, each some time after the last.
abbrev pub clock : ℕ → List (ℕ × Happening) → ℕ
clock now [] = now
clock now ((gap, x) ∷ xs) = clock (now + gap) xs

unfoldable pub run : ℕ → List (ℕ × Happening) → SectionTracker → SectionTracker
unfolding happen
run now [] t = t
run now ((gap, x) ∷ xs) t = run (now + gap) xs (happen x (now + gap) t)

run-IsKept :
    (begun now : ℕ) (xs : List (ℕ × Happening)) (t : SectionTracker)
    → IsKept begun now t
    → IsKept begun (clock now xs) (run now xs t)
unfolding run
run-IsKept begun now [] t h = h
run-IsKept begun now ((gap, x) ∷ xs) t h =
    run-IsKept begun (now + gap) xs (happen x (now + gap) t)
      (happen-IsKept begun now (now + gap) (omega arith) t h x)

-- What is reported is at most what was credited.
reported-time_of :
    (ids : List Text) (l : List Section) → All IsSane l → time_of (reported ids l) ≤ total_of l
unfolding reported
reported-time_of ids [] h = omega arith
reported-time_of ids (s ∷ l) (a, h) =
    let rest = reported-time_of ids l h in
    if-both (λ m. time_of m ≤ s.total_ms + total_of l) (includes ids s.id) _ _
      (λ b. omega (arith, rest, a)) (λ b. omega (arith, rest))

-- Whatever happens to the tracker of a document and in whatever order, behind a start at which it was not
-- active, had credited no time and had no section with more qualified time than time: the times that it
-- reports, of all sections together, are at most the time since it started.
pub run-snapshot :
    (begun : ℕ) (xs : List (ℕ × Happening)) (t : SectionTracker)
    → t.is_active ≡ false
    → total_of t.sections ≡ 0
    → All IsSane t.sections
    → time_of (snapshot (run begun xs (start begun t))) + begun ≤ clock begun xs
unfolding snapshot start
run-snapshot begun xs t a e h =
    let began =
      if-both (IsKept begun begun) t.is_active _ _ (λ b. absurd (ground arith))
        (λ b. (omega arith, omega arith, h)) in
    let (p, q, r) = run-IsKept begun begun xs (start begun t) began in
    omega (
      arith,
      reported-time_of (run begun xs (start begun t)).entered_once
          (run begun xs (start begun t)).sections r,
      p,
      q,
    )
