-- ===== src/Tracker/Sections/Winner/Best.antt =====
-- The best of a race by fractions leads every other, and comes from a place in it.
use htmlradar.Common.{
  ℕ, zero, suc, ◌+◌, ◌*◌, ◌≤◌, ◌<◌, ◌≡◌, ◌⊎◌, inl, inr, refl, ◌∙◌, ap, Option, none, some, List, [],
  ◌∷◌, Bool, true, false, if◌then◌else◌, All, arith,
}
use native.Mathlib.Nat.{mul_right_comm, mul-le-mul_right, le_of_mul-le-mul_right}
use htmlradar.Tracker.Sections.{Fraction, Seen, covers_more, better, challenge, winner}

-- `f ≥ g`
abbrev pub IsAtLeast : Fraction → Fraction → Type 0
IsAtLeast f g = g.part * f.whole ≤ f.part * g.whole

IsAtLeast-trans : (f g h : Fraction) → 0 < g.whole → IsAtLeast f g → IsAtLeast g h → IsAtLeast f h
IsAtLeast-trans f g h p a b =
    let one = mul-le-mul_right h.whole a in
    let two = mul-le-mul_right f.whole b in
    let e = mul_right_comm h.part f.whole g.whole in
    let k = mul_right_comm g.part h.whole f.whole in
    let m = mul_right_comm f.part g.whole h.whole in
    le_of_mul-le-mul_right {k = g.whole} (omega (arith, one, two, e, k, m)) p

unfoldable pub nth : {A : Type 0} → ℕ → List A → Option A
nth i [] = none
nth zero (x ∷ l) = some x
nth (suc i) (x ∷ l) = nth i l

-- A fraction with a section to it.
abbrev pub IsReal : Option Fraction → Type 0
IsReal none = Unit
IsReal (some f) = 0 < f.whole

-- The best so far leads what was seen.
abbrev pub IsLed : Option (ℕ × Fraction) → Option Fraction → Type 0
IsLed best none = Unit
IsLed none (some g) = ⊥
IsLed (some (i, f)) (some g) = IsAtLeast f g

abbrev pub IsHeld : Option (ℕ × Fraction) → Option (ℕ × Fraction) → Type 0
IsHeld none w = Unit
IsHeld (some (i, f)) w = IsLed w (some f)

abbrev pub IsRealBest : Option (ℕ × Fraction) → Type 0
IsRealBest none = Unit
IsRealBest (some (i, f)) = 0 < f.whole

-- One challenge: the new best leads the challenger and the old best, and is one of the two.
abbrev IsChallenged : ℕ → Option Fraction → Option (ℕ × Fraction) → Option (ℕ × Fraction) → Type 0
IsChallenged i x best w =
    IsLed w x
    × IsHeld best w
    × IsRealBest w
    × ((w ≡ best) ⊎ ((f : Fraction) × (w ≡ some (i, f)) × (x ≡ some f)))

better-IsChallenged :
    (i j : ℕ) (f g : Fraction) (b : Bool)
    → covers_more f g ≡ b
    → 0 < f.whole
    → 0 < g.whole
    → IsChallenged i (some f) (some (j, g)) (if b then some (i, f) else some (j, g))
better-IsChallenged i j f g true e p q = (omega arith, ground arith, p, inr (f, refl, refl))
better-IsChallenged i j f g false e p q = (ground arith, omega arith, q, inl refl)

challenge-IsChallenged :
    (i : ℕ) (x : Option Fraction) (best : Option (ℕ × Fraction))
    → IsReal x
    → IsRealBest best
    → IsChallenged i x best (challenge i x best)
unfolding challenge better
challenge-IsChallenged i none none p q = (tt, tt, tt, inl refl)
challenge-IsChallenged i none (some (j, g)) p q = (tt, omega arith, q, inl refl)
challenge-IsChallenged i (some f) none p q = (omega arith, tt, p, inr (f, refl, refl))
challenge-IsChallenged i (some f) (some (j, g)) p q =
    better-IsChallenged i j f g (covers_more f g) refl p q

IsLed-trans :
    (best w : Option (ℕ × Fraction)) (x : Option Fraction)
    → IsRealBest best
    → IsLed best x
    → IsHeld best w
    → IsLed w x
IsLed-trans best w none p a b = tt
IsLed-trans none w (some g) p a b = absurd a
IsLed-trans (some (i, f)) none (some g) p a b = absurd b
IsLed-trans (some (i, f)) (some (j, h)) (some g) p a b = IsAtLeast-trans h f g p b a

IsHeld-trans :
    (best mid w : Option (ℕ × Fraction))
    → IsRealBest mid
    → IsHeld best mid
    → IsHeld mid w
    → IsHeld best w
IsHeld-trans none mid w p a b = tt
IsHeld-trans (some (i, f)) mid w p a b = IsLed-trans mid w (some f) p a b

IsHeld-refl : (best : Option (ℕ × Fraction)) → IsHeld best best
IsHeld-refl none = tt
IsHeld-refl (some (i, f)) = omega arith

abbrev pub IsFrom : ℕ → List Seen → Option (ℕ × Fraction) → Type 0
IsFrom i cs w =
    (k : ℕ) × (c : Seen) × (f : Fraction) × (w ≡ some (i + k, f))
    × (nth k cs ≡ some c)
    × (c.fraction ≡ some f)

abbrev pub IsWon : ℕ → List Seen → Option (ℕ × Fraction) → Option (ℕ × Fraction) → Type 0
IsWon i cs best w =
    All (λ (c : Seen). IsLed w c.fraction) cs × IsHeld best w × ((w ≡ best) ⊎ IsFrom i cs w)

-- Where the best came from, after one more.
IsFrom-challenge :
    (i : ℕ) (c : Seen) (cs : List Seen) (best mid w : Option (ℕ × Fraction))
    → (mid ≡ best) ⊎ ((f : Fraction) × (mid ≡ some (i, f)) × (c.fraction ≡ some f))
    → (w ≡ mid) ⊎ IsFrom (suc i) cs w
    → (w ≡ best) ⊎ IsFrom i (c ∷ cs) w
unfolding nth
IsFrom-challenge i c cs best mid w (inl a) (inl b) = inl (b ∙ a)
IsFrom-challenge i c cs best mid w (inr (f, a, e)) (inl b) =
    inr (0, c, f, b ∙ a ∙ ap (λ n. some (n, f)) (omega arith), refl, e)
IsFrom-challenge i c cs best mid w a (inr (k, d, f, e, n, g)) =
    inr (suc k, d, f, e ∙ ap (λ n. some (n, f)) (omega arith), n, g)

pub winner-IsWon :
    (i : ℕ) (cs : List Seen) (best : Option (ℕ × Fraction))
    → All (λ (c : Seen). IsReal c.fraction) cs
    → IsRealBest best
    → IsWon i cs best (winner i cs best)
unfolding winner
winner-IsWon i [] best h p = (tt, IsHeld-refl best, inl refl)
winner-IsWon i (c ∷ cs) best (h, hs) p =
    let mid = challenge i c.fraction best in
    let (led, held, real, from) = challenge-IsChallenged i c.fraction best h p in
    let (all_led, later, origin) = winner-IsWon (suc i) cs mid hs real in
    let w = winner (suc i) cs mid in
    (
      (IsLed-trans mid w c.fraction real led later, all_led),
      IsHeld-trans best mid w real held later,
      IsFrom-challenge i c cs best mid w from origin,
    )
