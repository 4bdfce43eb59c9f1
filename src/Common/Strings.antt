-- ===== src/Common/Strings.antt =====
-- JavaScript strings as lists of UTF-16 code units, with the operations of `String.prototype` that
-- the program calls: `===`, `includes` of an array, `split`, `startsWith`, `endsWith`, `trim` and
-- `toLowerCase`, the last two as far as ASCII goes.
use Prim.Native.Char.{code}
use Prim.Native.String.{String}
use Prim.Native.Nat.{ℕ, ◌+◌}
use mathlib.Core.Path.{◌≡◌, refl}
use mathlib.Core.Logic.{◌≢◌, ◌↔◌, ◌⊎◌, inl, inr}
use mathlib.Core.Bool.{Bool, true, false, ◌&&◌, ◌||◌}
use mathlib.Core.List.{List, [], ◌∷◌, ◌++◌, map}
use native.Mathlib.Omega.{arith}
use htmlradar.Common.Tests.{leb, ◌==◌, if◌then◌else◌, ==_iff, and-eq-true, Bool-cases}
use htmlradar.Common.Lists.{All}

abbrev pub Text : Type 0
Text = List ℕ

abbrev pub codes : String → Text
codes String.[] = []
codes (String.◌∷◌ c s) = code c ∷ codes s

-- `a === b`
unfoldable pub same : Text → Text → Bool
same [] [] = true
same (a ∷ s) (b ∷ t) = a == b && same s t
same _ _ = false

pub same_sound : (s t : Text) → same s t ≡ true → s ≡ t
unfolding same
same_sound [] [] h = refl
same_sound [] (b ∷ t) h = cc
same_sound (a ∷ s) [] h = cc
same_sound (a ∷ s) (b ∷ t) h =
    let (p, q) = and-eq-true (a == b) (same s t) h in cc ((==_iff a b).0 p, same_sound s t q)

pub same_refl : (s : Text) → same s s ≡ true
unfolding same
same_refl [] = refl
same_refl (a ∷ s) = ground (arith, same_refl s)

pub same_iff : (s t : Text) → (same s t ≡ true) ↔ (s ≡ t)
same_iff s t = (same_sound s t, λ e. rw e (same_refl t))

-- `list.includes(s)`
unfoldable pub includes : List Text → Text → Bool
includes [] s = false
includes (t ∷ ts) s = same t s || includes ts s

-- `s` is one of the listed texts.
abbrev pub Listed : Text → List Text → Type 0
Listed s [] = ⊥
Listed s (t ∷ ts) = (t ≡ s) ⊎ Listed s ts

pub includes_sound : (ts : List Text) (s : Text) → includes ts s ≡ true → Listed s ts
unfolding includes
includes_sound [] s h = cc
includes_sound (t ∷ ts) s h = elim (Bool-cases (same t s)) [
  | inl e ↦ inl (same_sound t s e)
  | inr n ↦ inr (includes_sound ts s (rw n at h))
]

pub includes_complete : (ts : List Text) (s : Text) → Listed s ts → includes ts s ≡ true
unfolding includes
includes_complete [] s h = absurd h
includes_complete (t ∷ ts) s (inl e) = rw ((same_iff t s).1 e) refl
includes_complete (t ∷ ts) s (inr h) = ground (arith, includes_complete ts s h)

pub includes_iff : (ts : List Text) (s : Text) → (includes ts s ≡ true) ↔ Listed s ts
includes_iff ts s = (includes_sound ts s, includes_complete ts s)

-- `s.startsWith(p)`
unfoldable pub starts_with : Text → Text → Bool
starts_with s [] = true
starts_with [] (p ∷ ps) = false
starts_with (c ∷ s) (p ∷ ps) = c == p && starts_with s ps

-- `s.endsWith(t)` and `s.includes(t)`
unfoldable pub ends_with : Text → Text → Bool
ends_with [] t = same [] t
ends_with (c ∷ s) t = same (c ∷ s) t || ends_with s t

unfoldable pub contains : Text → Text → Bool
contains [] t = starts_with [] t
contains (c ∷ s) t = starts_with (c ∷ s) t || contains s t

-- No code unit of the text is `c`.
abbrev pub Lacks : ℕ → Text → Type 0
Lacks c = All (λ d. d ≢ c)

unfoldable pub push : ℕ → List Text → List Text
push c [] = (c ∷ []) ∷ []
push c (part ∷ parts) = (c ∷ part) ∷ parts

-- `s.split(sep)` at a separator of one code unit
unfoldable pub split : ℕ → Text → List Text
unfolding push
split sep [] = [] ∷ []
split sep (c ∷ s) = let rest = split sep s in if c == sep then [] ∷ rest else push c rest

pub split-Lacks : (sep : ℕ) (s : Text) → Lacks sep s → split sep s ≡ s ∷ []
unfolding split
split-Lacks sep [] _ = refl
split-Lacks sep (c ∷ s) (p, h) = rw (split-Lacks sep s h) (ground arith)

pub split-append : (sep : ℕ) (s t : Text) → Lacks sep s → split sep (s ++ sep ∷ t) ≡ s ∷ split sep t
unfolding split
split-append sep [] t _ = ground arith
split-append sep (c ∷ s) t (p, h) = rw (split-append sep s t h) (ground arith)

-- Two texts cut at the first separator agree only if both halves agree.
pub cut_unique :
    (sep : ℕ) (s t u v : Text)
    → Lacks sep s
    → Lacks sep t
    → s ++ sep ∷ u ≡ t ++ sep ∷ v
    → (s ≡ t) × (u ≡ v)
cut_unique sep [] [] u v _ _ e = (refl, cc)
cut_unique sep [] (d ∷ t) u v _ (q, _) e = absurd (q (cc))
cut_unique sep (c ∷ s) [] u v (p, _) _ e = absurd (p (cc))
cut_unique sep (c ∷ s) (d ∷ t) u v (_, h) (_, k) e =
    let (same_s, same_u) = cut_unique sep s t u v h k (cc) in (cc, same_u)

-- A text without the separator is not one that holds it.
pub Lacks-ne-cut : (sep : ℕ) (s t u : Text) → Lacks sep s → s ≢ t ++ sep ∷ u
Lacks-ne-cut sep [] [] u _ e = cc
Lacks-ne-cut sep [] (d ∷ t) u _ e = cc
Lacks-ne-cut sep (c ∷ s) [] u (p, _) e = p (cc)
Lacks-ne-cut sep (c ∷ s) (d ∷ t) u (_, h) e = Lacks-ne-cut sep s t u h (cc)

-- `c.toLowerCase()` for ASCII
abbrev pub lower_code : ℕ → ℕ
lower_code c = if leb b'A' c && leb c b'Z' then c + 32 else c

unfoldable pub to_lower : Text → Text
to_lower = map lower_code

abbrev pub is_digit : ℕ → Bool
is_digit c = leb b'0' c && leb c b'9'

abbrev pub is_lower_alnum : ℕ → Bool
is_lower_alnum c = is_digit c || leb b'a' c && leb c b'z'

-- The white space that `trim` and `\s` know, up to U+00A0.
abbrev pub is_space : ℕ → Bool
is_space c = leb 9 c && leb c 13 || c == 32 || c == 160

unfoldable pub trim_start : Text → Text
trim_start [] = []
trim_start (c ∷ s) = let rest = trim_start s in if is_space c then rest else c ∷ s

unfoldable pub trim_end : Text → Text
trim_end [] = []
trim_end (c ∷ s) = elim (trim_end s) [ [] ↦ if is_space c then [] else c ∷ [] | d ∷ t ↦ c ∷ d ∷ t ]

-- `s.trim()`
unfoldable pub trim : Text → Text
unfolding trim_start trim_end
trim s = trim_end (trim_start s)
