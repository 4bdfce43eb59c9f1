-- ===== src/Common/Splits.antt =====
-- What a `split` at one code unit returns, and when two joined texts are equal.
use htmlradar.Common.Tests.{◌==◌, Bool-cases, ==_iff}
use htmlradar.Common.Lists.{All}
use htmlradar.Common.Strings.{Text, Lacks, split, push, Lacks-ne-cut}
use Prim.Native.Nat.{ℕ}
use mathlib.Core.Path.{◌≡◌, refl, ap, ◌∙◌}
use mathlib.Core.Logic.{◌≢◌, inl, inr}
use mathlib.Core.List.{List, [], ◌∷◌, ◌++◌}
use native.Mathlib.Omega.{arith}

-- `parts.join(sep)`
abbrev pub join : ℕ → List Text → Text
join sep [] = []
join sep (part ∷ []) = part
join sep (part ∷ next ∷ parts) = part ++ sep ∷ join sep (next ∷ parts)

module _ (sep : ℕ) where
  join-push :
      (c : ℕ) (part : Text) (parts : List Text)
      → join sep (push c (part ∷ parts)) ≡ c ∷ join sep (part ∷ parts)
  unfolding push
  join-push c part [] = refl
  join-push c part (next ∷ parts) = refl

  -- A split has a first part.
  split_form : (s : Text) → (part : Text) × (parts : List Text) × (split sep s ≡ part ∷ parts)
  unfolding split
  split_form [] = ([], [], refl)
  split_form (c ∷ s) =
      let (part, parts, e) = split_form s in
      elim (Bool-cases (c == sep)) [
        | inl h ↦ ([], part ∷ parts, rw (e, h) refl)
        | inr h ↦ (c ∷ part, parts, rw (e, h) refl)
      ]

  pub join-split : (s : Text) → join sep (split sep s) ≡ s
  unfolding split
  join-split [] = refl
  join-split (c ∷ s) =
      let (part, parts, e) = split_form s in
      let back : join sep (part ∷ parts) ≡ s = rw (← e) (join-split s) in
      elim (Bool-cases (c == sep)) [
        | inl h ↦ rw (e, h) (cc ((==_iff c sep).0 h))
        | inr h ↦ rw (e, h) (join-push c part parts ∙ ap (λ t. c ∷ t) back)
      ]

  pub split-All-Lacks : (s : Text) → All (Lacks sep) (split sep s)
  unfolding split push
  split-All-Lacks [] = (tt, tt)
  split-All-Lacks (c ∷ s) =
      let (part, parts, e) = split_form s in
      let (first, others) = rw e at (split-All-Lacks s) in
      elim (Bool-cases (c == sep)) [
        | inl h ↦ rw (e, h) (tt, (first, others))
        | inr h ↦ rw (e, h) ((ground arith, first), others)
      ]

-- Two texts cut at the last separator agree only if both halves agree.
pub cut_last_unique :
    (sep : ℕ) (s t u v : Text)
    → Lacks sep u
    → Lacks sep v
    → s ++ sep ∷ u ≡ t ++ sep ∷ v
    → (s ≡ t) × (u ≡ v)
cut_last_unique sep [] [] u v _ _ e = (refl, cc)
cut_last_unique sep [] (d ∷ t) u v p _ e = absurd (Lacks-ne-cut sep u t v p (cc))
cut_last_unique sep (c ∷ s) [] u v _ q e = absurd (Lacks-ne-cut sep v s u q (cc))
cut_last_unique sep (c ∷ s) (d ∷ t) u v p q e =
    let (same_s, same_u) = cut_last_unique sep s t u v p q (cc) in (cc, same_u)

-- Two texts whose first halves lack each other's separator differ.
pub cut_first_ne :
    (a b : ℕ) (s t u v : Text) → a ≢ b → Lacks b s → Lacks a t → s ++ a ∷ u ≢ t ++ b ∷ v
cut_first_ne a b [] [] u v n _ _ e = n (cc)
cut_first_ne a b [] (d ∷ t) u v n _ (q, _) e = q (cc)
cut_first_ne a b (c ∷ s) [] u v n (p, _) _ e = p (cc)
cut_first_ne a b (c ∷ s) (d ∷ t) u v n (_, p) (_, q) e = cut_first_ne a b s t u v n p q (cc)

-- So do two texts whose last halves do.
pub cut_last_ne :
    (a b : ℕ) (s t u v : Text) → a ≢ b → Lacks b u → Lacks a v → s ++ a ∷ u ≢ t ++ b ∷ v
cut_last_ne a b [] [] u v n _ _ e = n (cc)
cut_last_ne a b [] (d ∷ t) u v n p _ e = Lacks-ne-cut b u t v p (cc)
cut_last_ne a b (c ∷ s) [] u v n _ q e = Lacks-ne-cut a v s u q (cc)
cut_last_ne a b (c ∷ s) (d ∷ t) u v n p q e = cut_last_ne a b s t u v n p q (cc)
