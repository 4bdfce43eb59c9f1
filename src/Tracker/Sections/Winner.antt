-- ===== src/Tracker/Sections/Winner.antt =====
-- Who wins a sample: of the sections that are half on screen and enclose no other such section, the one
-- that covers the most.
pub mod Best
use htmlradar.Common.{
  ℕ, zero, suc, ◌+◌, ◌*◌, ◌≤◌, ◌<◌, ◌≡◌, ◌⊎◌, inl, inr, refl, ◌∙◌, sym, ap, Option, none, some,
  List, [], ◌∷◌, Bool, true, false, if◌then◌else◌, map, All, arith,
}
use native.Mathlib.Nat.{mul_right_comm, mul-le-mul_right, le_of_mul-le-mul_right}
use htmlradar.Tracker.Sections.{
  Section, Fraction, Seen, Layout, coverage, is_visible, covers_more, measured,
  encloses_a_candidate, raced, better, challenge, winner, first_pass, second_pass,
}
use htmlradar.Tracker.Sections.Winner.Best.{
  IsAtLeast, nth, IsReal, IsLed, IsFrom, IsWon, winner-IsWon, IsRealBest, IsHeld,
}

-- The fraction with which a section races.
abbrev entry : List Seen → Section → Fraction → Option Fraction
entry seen s f =
    if is_visible f then (if encloses_a_candidate seen s then none else some f) else none

module _ (dt : ℕ) (seen : List Seen) (s : Section) (f : Fraction) where
  abbrev stood : Bool → Seen
  stood e =
      if e
      then record { section = record s { continuous_visible_ms = 0 }; fraction = none }
      else record {
        section = record s { continuous_visible_ms = s.continuous_visible_ms + dt };
        fraction = some f;
      }

  enclosing-entry : (e : Bool) → (stood e).fraction ≡ (if e then none else some f)
  enclosing-entry true = refl
  enclosing-entry false = refl

  abbrev looked_at : Bool → Seen
  looked_at b =
      if b
      then record { section = s; fraction = some f }
      else record { section = record s { continuous_visible_ms = 0 }; fraction = none }

  visible-entry :
      (b : Bool)
      → (raced dt seen (looked_at b)).fraction
        ≡ (if b then (if encloses_a_candidate seen s then none else some f) else none)
  unfolding raced
  visible-entry true = enclosing-entry (encloses_a_candidate seen s)
  visible-entry false = refl

-- What a section races with, after both loops.
raced-entry :
    (dt : ℕ) (seen : List Seen) (page : Layout) (s : Section)
    → (raced dt seen (measured page.window (page.range_of s.ordinal) s)).fraction
      ≡ entry seen s (coverage page.window (page.range_of s.ordinal))
unfolding measured
raced-entry dt seen page s =
    visible-entry dt seen s (coverage page.window (page.range_of s.ordinal))
      (is_visible (coverage page.window (page.range_of s.ordinal)))

-- How much of a section, or of the window, is on screen.
abbrev pub covered : Layout → Section → Fraction
covered page s = coverage page.window (page.range_of s.ordinal)

-- At least half of it is, and it encloses no other such section.
abbrev pub IsContender : Layout → List Section → Section → Type 0
IsContender page l s =
    (is_visible (covered page s) ≡ true) × (encloses_a_candidate (first_pass page l) s ≡ false)

entry-some :
    (b e : Bool) (f g : Fraction)
    → (if b then (if e then none else some f) else none) ≡ some g
    → (b ≡ true) × (e ≡ false) × (f ≡ g)
entry-some true true f g h = absurd (ground arith)
entry-some true false f g h = (refl, refl, cc)
entry-some false e f g h = absurd (ground arith)

entry-IsReal :
    (b e : Bool) (f : Fraction)
    → (b ≡ true → 0 < f.whole)
    → IsReal (if b then (if e then none else some f) else none)
entry-IsReal true true f h = tt
entry-IsReal true false f h = h refl
entry-IsReal false e f h = tt

entry-shown :
    (b e : Bool) (f : Fraction)
    → b ≡ true
    → e ≡ false
    → (if b then (if e then none else some f) else none) ≡ some f
entry-shown true false f p q = refl
entry-shown true true f p q = absurd (ground arith)
entry-shown false e f p q = absurd (ground arith)

some-eq : {A : Type 0} {x y : A} → some x ≡ some y → x ≡ y
some-eq e = cc

module _ (dt : ℕ) (page : Layout) (seen : List Seen) where
  race-IsReal :
      (l : List Section)
      → All (λ (c : Seen). IsReal c.fraction) (map (raced dt seen) (first_pass page l))
  race-IsReal [] = tt
  race-IsReal (s ∷ l) = (
    rw (raced-entry dt seen page s) (
        entry-IsReal (is_visible (covered page s)) (encloses_a_candidate seen s) (covered page s)
          (λ b. ground arith)),
    race-IsReal l,
  )

  -- The section behind a place in the race.
  race-nth :
      (k : ℕ) (l : List Section) (c : Seen)
      → nth k (map (raced dt seen) (first_pass page l)) ≡ some c
      → (s : Section) × (nth k l ≡ some s) × (c.fraction ≡ entry seen s (covered page s))
  unfolding nth
  race-nth k [] c h = absurd (ground arith)
  race-nth zero (s ∷ l) c h =
      (s, refl, sym (ap (λ (d : Seen). d.fraction) (some-eq h)) ∙ raced-entry dt seen page s)
  race-nth (suc k) (s ∷ l) c h = race-nth k l c h

  shown :
      (t : Section)
      → is_visible (covered page t) ≡ true
      → encloses_a_candidate seen t ≡ false
      → entry seen t (covered page t) ≡ some (covered page t)
  shown t b e =
      entry-shown (is_visible (covered page t)) (encloses_a_candidate seen t) (covered page t) b e

  led-entry :
      (f : Fraction) (i : ℕ) (t : Section)
      → IsLed
          (some (i, f))
          (raced dt seen (measured page.window (page.range_of t.ordinal) t)).fraction
      → is_visible (covered page t) ≡ true
      → encloses_a_candidate seen t ≡ false
      → IsAtLeast f (covered page t)
  led-entry f i t h b e = rw (raced-entry dt seen page t ∙ shown t b e) at h

  -- The best leads each contender.
  race-led :
      (f : Fraction) (i : ℕ) (l : List Section)
      → All (λ (c : Seen). IsLed (some (i, f)) c.fraction) (map (raced dt seen) (first_pass page l))
      → All
          (λ t.
            (is_visible (covered page t) ≡ true) × (encloses_a_candidate seen t ≡ false)
            → IsAtLeast f (covered page t))
          l
  race-led f i [] h = tt
  race-led f i (t ∷ l) (h, hs) = ((λ (b, e). led-entry f i t h b e), race-led f i l hs)

-- What is said of the section at a place that a sample credits.
abbrev pub IsRead : Layout → List Section → ℕ → Fraction → Type 0
IsRead page l k f =
    (s : Section) × (nth k l ≡ some s)
    × (covered page s ≡ f)
    × IsContender page l s
    × All (λ t. IsContender page l t → IsAtLeast f (covered page t)) l

same-place : (p q : ℕ × Fraction) → some p ≡ some q → (p.0 ≡ q.0) × (p.1 ≡ q.1)
same-place p q e =
    let both : p ≡ q = some-eq e in
    (ap (λ (r : ℕ × Fraction). r.0) both, ap (λ (r : ℕ × Fraction). r.1) both)

IsFrom-IsRead :
    (dt : ℕ) (page : Layout) (l : List Section) (k : ℕ) (f : Fraction)
    → All (λ (c : Seen). IsLed (some (k, f)) c.fraction) (second_pass dt (first_pass page l))
    → IsFrom 0 (second_pass dt (first_pass page l)) (some (k, f))
    → IsRead page l k f
IsFrom-IsRead dt page l k f led (i, c, g, e, n, q) =
    let seen = first_pass page l in
    let (place, one) = same-place (k, f) (0 + i, g) e in
    let here : i ≡ k = omega arith in
    let (s, m, r) = race-nth dt page seen i l c n in
    let (visible, alone, g_is) =
      entry-some (is_visible (covered page s)) (encloses_a_candidate seen s) (covered page s) g
        (sym r ∙ q) in
    (
      s,
      ap (λ j. nth j l) (sym here) ∙ m,
      g_is ∙ sym one,
      (visible, alone),
      race-led dt page seen f k l led,
    )

-- The place that a sample credits holds a section that is half on screen and encloses no other such
-- section, and of those no other has a greater fraction of its height on screen, or of the window's
-- height where it is taller than the window.
pub winner-IsRead :
    (dt : ℕ) (page : Layout) (l : List Section) (k : ℕ) (f : Fraction)
    → winner 0 (second_pass dt (first_pass page l)) none ≡ some (k, f)
    → IsRead page l k f
winner-IsRead dt page l k f h =
    let seen = first_pass page l in
    let race = second_pass dt seen in
    let (led, held, origin) = rw h at (winner-IsWon 0 race none (race-IsReal dt page seen l) tt) in
    elim origin [ inl e ↦ absurd (ground arith) | inr from ↦ IsFrom-IsRead dt page l k f led from ]
