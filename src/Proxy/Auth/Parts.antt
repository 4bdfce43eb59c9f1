-- ===== src/Proxy/Auth/Parts.antt =====
-- The parts of a token of auth.ts: what `split('.')` gives back, and the expiry among them.
use htmlradar.Common.{
  ℕ, ◌≤◌, ◌≡◌, sym, ap, ◌∙◌, Text, List, [], ◌∷◌, ◌++◌, All, Lacks, split, split-append,
  split-Lacks, arith, some, ◌↔◌,
}
use htmlradar.Common.Decimal.{Parsed, nan, number, minus}
use htmlradar.Common.Splits.{join, join-split, split-All-Lacks}
use htmlradar.Proxy.Auth.{two_parts, three_parts, four_parts, live_expiry}

-- A list read back from its parts.
two_parts-eq-some : (l : List Text) {a b : Text} → two_parts l ≡ some (a, b) → l ≡ a ∷ b ∷ []
two_parts-eq-some (x ∷ y ∷ []) e = cc
two_parts-eq-some _ e = cc

three_parts-eq-some :
    (l : List Text) {a b c : Text} → three_parts l ≡ some (a, b, c) → l ≡ a ∷ b ∷ c ∷ []
three_parts-eq-some (x ∷ y ∷ z ∷ []) e = cc
three_parts-eq-some _ e = cc

four_parts-eq-some :
    (l : List Text) {a b c d : Text} → four_parts l ≡ some (a, b, c, d) → l ≡ a ∷ b ∷ c ∷ d ∷ []
four_parts-eq-some (x ∷ y ∷ z ∷ w ∷ []) e = cc
four_parts-eq-some _ e = cc

module _ (sep : ℕ) where
  split_parts :
      (s : Text) (parts : List Text)
      → split sep s ≡ parts
      → (s ≡ join sep parts) × All (Lacks sep) parts
  split_parts s parts e = rw (← e) (sym (join-split sep s), split-All-Lacks sep s)

  pub two_of_split :
      (s : Text) {a b : Text}
      → two_parts (split sep s) ≡ some (a, b)
      → (s ≡ a ++ sep ∷ b) × All (Lacks sep) (a ∷ b ∷ [])
  two_of_split s {a} {b} e = split_parts s (a ∷ b ∷ []) (two_parts-eq-some (split sep s) e)

  pub three_of_split :
      (s : Text) {a b c : Text}
      → three_parts (split sep s) ≡ some (a, b, c)
      → (s ≡ a ++ sep ∷ (b ++ sep ∷ c)) × All (Lacks sep) (a ∷ b ∷ c ∷ [])
  three_of_split s {a} {b} {c} e =
      split_parts s (a ∷ b ∷ c ∷ []) (three_parts-eq-some (split sep s) e)

  pub four_of_split :
      (s : Text) {a b c d : Text}
      → four_parts (split sep s) ≡ some (a, b, c, d)
      → (s ≡ a ++ sep ∷ (b ++ sep ∷ (c ++ sep ∷ d))) × All (Lacks sep) (a ∷ b ∷ c ∷ d ∷ [])
  four_of_split s {a} {b} {c} {d} e =
      split_parts s (a ∷ b ∷ c ∷ d ∷ []) (four_parts-eq-some (split sep s) e)

  pub split_two : (a b : Text) → Lacks sep a → Lacks sep b → split sep (a ++ sep ∷ b) ≡ a ∷ b ∷ []
  split_two a b p q = split-append sep a b p ∙ ap (λ t. a ∷ t) (split-Lacks sep b q)

  pub split_three :
      (a b c : Text)
      → Lacks sep a
      → Lacks sep b
      → Lacks sep c
      → split sep (a ++ sep ∷ (b ++ sep ∷ c)) ≡ a ∷ b ∷ c ∷ []
  split_three a b c p q r =
      split-append sep a (b ++ sep ∷ c) p ∙ ap (λ t. a ∷ t) (split_two b c q r)

  pub split_four :
      (a b c d : Text)
      → Lacks sep a
      → Lacks sep b
      → Lacks sep c
      → Lacks sep d
      → split sep (a ++ sep ∷ (b ++ sep ∷ (c ++ sep ∷ d))) ≡ a ∷ b ∷ c ∷ d ∷ []
  split_four a b c d p q r s =
      split-append sep a (b ++ sep ∷ (c ++ sep ∷ d)) p ∙ ap (λ t. a ∷ t) (split_three b c d q r s)

-- An expiry is live exactly when it is a number that is not before `now`.
pub live_expiry_iff :
    (r : Parsed) (now n : ℕ) → (live_expiry r now ≡ some n) ↔ ((r ≡ number n) × (now ≤ n))
live_expiry_iff nan now n = ground arith
live_expiry_iff (number m) now n = ground arith
live_expiry_iff (minus m) now n = ground arith
