-- ===== src/Proxy/Auth/Compare.antt =====
-- The comparison of signatures in auth.ts.
use Prim.Native.Nat.{bit_or, bit_xor}
use htmlradar.Common.{
  ℕ, ◌≡◌, refl, true, Text, [], ◌∷◌, length, arith, ◌==◌, Bool-cases, ==_iff, inl, inr, ◌↔◌,
}
use htmlradar.Common.Bits.{bit_or-eq-zero, bit_xor-eq-zero, bit_xor_self}
use htmlradar.Proxy.Auth.{differences, constant_time_equal}

differences_zero :
    (diff : ℕ) (s t : Text) → length s ≡ length t → differences diff s t ≡ 0 → (diff ≡ 0) × (s ≡ t)
unfolding differences
differences_zero diff [] [] e h = (h, refl)
differences_zero diff [] (b ∷ t) e h = absurd (omega arith)
differences_zero diff (a ∷ s) [] e h = absurd (omega arith)
differences_zero diff (a ∷ s) (b ∷ t) e h =
    let (joined, rest) = differences_zero (bit_or diff (bit_xor a b)) s t (omega arith) h in
    let (before, here) = bit_or-eq-zero diff (bit_xor a b) joined in
    (before, cc (bit_xor-eq-zero a b here, rest))

differences_same : (s : Text) → differences 0 s s ≡ 0
unfolding differences
differences_same [] = refl
differences_same (a ∷ s) = rw (bit_xor_self a) (differences_same s)

-- The comparison accepts exactly equal texts.
pub constant_time_equal_iff : (s t : Text) → (constant_time_equal s t ≡ true) ↔ (s ≡ t)
unfolding constant_time_equal
constant_time_equal_iff s t = (
  λ h. elim (Bool-cases (length s == length t)) [
    | inl e ↦
        let n = (==_iff (length s) (length t)).0 e in
        (differences_zero 0 s t n ((==_iff _ 0).0 (rw e at h))).1
    | inr e ↦ absurd (let f : ⊥ = cc (rw e at h) in f)
  ],
  λ e. rw e (rw ((==_iff (length t) (length t)).1 refl) ((==_iff _ 0).1 (differences_same t))),
)
