-- ===== src/Common/Decimal.antt =====
-- `Number.parseInt(s, 10)` and the decimal digits of a template literal, with their round trip.
use Prim.Native.Nat.{ℕ, zero, suc, ◌+◌, ◌-◌, ◌*◌, ◌/◌, ◌%◌, ◌<◌, ◌≤◌}
use mathlib.Core.Path.{◌≡◌, refl}
use mathlib.Core.Option.{Option, none, some}
use mathlib.Core.List.{[], ◌∷◌}
use mathlib.Core.Logic.{◌≢◌, inl, inr}
use native.Mathlib.Omega.{arith}
use htmlradar.Common.Tests.{ltb, ◌==◌, if◌then◌else◌, Bool-cases}
use htmlradar.Common.Lists.{All, All-impl}
use htmlradar.Common.Strings.{Text, codes, is_digit, trim_start, Lacks}

-- One more digit in front of `out` for each round; the last round leaves a number below ten.
digits_from : ℕ → ℕ → Text → Text
digits_from zero n out = out
digits_from (suc fuel) n out =
    let rest = digits_from fuel (n / 10) ((b'0' + n % 10) ∷ out) in
    if ltb n 10 then (b'0' + n) ∷ out else rest

-- `${n}` for a natural number
unfoldable pub to_dec : ℕ → Text
unfolding digits_from
to_dec n = digits_from (suc n) n []

-- What `parseInt` returns.
pub data Parsed : Type 0 where
  nan : Parsed
  number : ℕ → Parsed
  minus : ℕ → Parsed

scan : Option ℕ → Text → Option ℕ
scan acc [] = acc
scan none (c ∷ s) = if is_digit c then scan (some (c - b'0')) s else none
scan (some n) (c ∷ s) = if is_digit c then scan (some (n * 10 + (c - b'0'))) s else some n

abbrev positive : Option ℕ → Parsed
positive none = nan
positive (some n) = number n

abbrev negative : Option ℕ → Parsed
negative none = nan
negative (some zero) = number 0
negative (some n) = minus n

signed : Text → Parsed
signed [] = nan
signed (c ∷ s) =
    if c == b'-'
    then negative (scan none s)
    else positive (scan none (if c == b'+' then s else c ∷ s))

unfoldable pub parse_int : Text → Parsed
unfolding signed scan trim_start
parse_int s = signed (trim_start s)

abbrev pub IsDigit : ℕ → Type 0
IsDigit c = (b'0' ≤ c) × (c ≤ b'9')

digits_from-IsDigit :
    (fuel n : ℕ) (out : Text) → All IsDigit out → All IsDigit (digits_from fuel n out)
unfolding digits_from
digits_from-IsDigit zero n out h = h
digits_from-IsDigit (suc fuel) n out h = elim (Bool-cases (ltb n 10)) [
  | inl small ↦ rw small (ground arith, h)
  | inr large ↦
      rw large (digits_from-IsDigit fuel (n / 10) ((b'0' + n % 10) ∷ out) (omega arith, h))
]

pub to_dec-IsDigit : (n : ℕ) → All IsDigit (to_dec n)
unfolding to_dec
to_dec-IsDigit n = digits_from-IsDigit (suc n) n [] tt

scan-digits_from :
    (fuel n : ℕ) (out : Text) → n < fuel → scan none (digits_from fuel n out) ≡ scan (some n) out
unfolding scan digits_from
scan-digits_from zero n out h = elim h [ ]
scan-digits_from (suc fuel) n out h = elim (Bool-cases (ltb n 10)) [
  | inl small ↦ rw small (ground arith)
  | inr large ↦ rw large (ground (arith, scan-digits_from fuel (n / 10) ((b'0' + n % 10) ∷ out)))
]

scan-to_dec : (n : ℕ) → scan none (to_dec n) ≡ some n
unfolding to_dec
scan-to_dec n = rw (scan-digits_from (suc n) n [] (omega arith)) (unfold scan in refl)

parse_int_digits :
    (s : Text) {n : ℕ} → All IsDigit s → scan none s ≡ some n → parse_int s ≡ number n
unfolding parse_int
parse_int_digits [] h e = cc
parse_int_digits (c ∷ s) h e = ground arith

-- Reading a printed number gives the number.
pub parse_int-to_dec : (n : ℕ) → parse_int (to_dec n) ≡ number n
parse_int-to_dec n = parse_int_digits (to_dec n) (to_dec-IsDigit n) (scan-to_dec n)

pub to_dec_injective : (a b : ℕ) → to_dec a ≡ to_dec b → a ≡ b
to_dec_injective a b e = cc (parse_int-to_dec a, parse_int-to_dec b)

-- A printed number holds no character that is not a digit.
pub to_dec-Lacks : (c n : ℕ) → ¬ IsDigit c → Lacks c (to_dec n)
to_dec-Lacks c n h =
    All-impl IsDigit (λ d. d ≢ c) (to_dec n) (λ d k e. h (rw (← e) k)) (to_dec-IsDigit n)

reads :
    (parse_int (codes " 42abc") ≡ number 42)
    × (parse_int (codes "-7") ≡ minus 7)
    × (parse_int (codes "x1") ≡ nan)
    × (to_dec 1700000000 ≡ codes "1700000000")
unfolding parse_int to_dec
reads = (refl, refl, refl, refl)
