-- ===== src/Common/Bits.antt =====
-- What a comparison by exclusive or rests on: when `a ^ b` and `a | b` are zero.
use Prim.Native.Nat.{
  ℕ, zero, suc, ◌/◌, ◌%◌, ◌^◌, ◌≤◌, ◌<◌, max, bit_or, bit_xor, digits, differ, bit_or-bitwise,
  bit_xor-bitwise,
}
use mathlib.Core.Path.{◌≡◌, refl, ◌∙◌, sym, ap}
use native.Mathlib.Nat.{pow-succ', div-div-eq-div-mul, div-one}
use htmlradar.Common.Tests.{◌==◌, ==_iff, Bool-cases}
use mathlib.Core.Logic.{inl, inr, ◌≢◌}
use mathlib.Core.Bool.{false}
use native.Mathlib.Omega.{arith}

or_digits_zero : (n a b : ℕ) → a ≤ n → digits (λ c. c) max n a b ≡ 0 → (a ≡ 0) × (b ≡ 0)
or_digits_zero zero a b h e = (omega arith, e)
or_digits_zero (suc n) zero b h e = (refl, e)
or_digits_zero (suc n) (suc a) b h e =
    let (p, q) = or_digits_zero n (suc a / 2) (b / 2) (omega arith) (omega arith) in
    absurd (omega arith)

pub bit_or-eq-zero : (a b : ℕ) → bit_or a b ≡ 0 → (a ≡ 0) × (b ≡ 0)
bit_or-eq-zero a b e = or_digits_zero a a b (omega arith) (sym (bit_or-bitwise a b) ∙ e)

differ-eq-zero : (x y : ℕ) → differ x y ≡ 0 → x ≡ y
differ-eq-zero zero y e = omega arith
differ-eq-zero (suc x) zero e = absurd (omega arith)
differ-eq-zero (suc x) (suc y) e = omega (arith, differ-eq-zero x y e)

differ_self : (x : ℕ) → differ x x ≡ 0
differ_self zero = refl
differ_self (suc x) = differ_self x

xor_digits_zero : (n a b : ℕ) → a ≤ n → digits (λ c. c) differ n a b ≡ 0 → a ≡ b
xor_digits_zero zero a b h e = omega arith
xor_digits_zero (suc n) zero b h e = omega arith
xor_digits_zero (suc n) (suc a) b h e =
    let p = xor_digits_zero n (suc a / 2) (b / 2) (omega arith) (omega arith) in
    let q = differ-eq-zero (suc a % 2) (b % 2) (omega arith) in omega arith

pub bit_xor-eq-zero : (a b : ℕ) → bit_xor a b ≡ 0 → a ≡ b
bit_xor-eq-zero a b e = xor_digits_zero a a b (omega arith) (sym (bit_xor-bitwise a b) ∙ e)

xor_digits_self : (n a : ℕ) → a ≤ n → digits (λ c. c) differ n a a ≡ 0
xor_digits_self zero a h = omega arith
xor_digits_self (suc n) zero h = refl
xor_digits_self (suc n) (suc a) h =
    omega (arith, xor_digits_self n (suc a / 2) (omega arith), differ_self (suc a % 2))

pub bit_xor_self : (a : ℕ) → bit_xor a a ≡ 0
bit_xor_self a = bit_xor-bitwise a a ∙ xor_digits_self a a (omega arith)

-- The law for the lowest digit of an exclusive or.
abbrev xor_digits : ℕ → ℕ → ℕ → ℕ
xor_digits n a b = digits (λ c. c) differ n a b

xor_digits_fuel : (n m a b : ℕ) → a ≤ n → a ≤ m → xor_digits n a b ≡ xor_digits m a b
xor_digits_fuel zero zero a b p q = refl
xor_digits_fuel zero (suc m) zero b p q = refl
xor_digits_fuel zero (suc m) (suc a) b p q = absurd (omega arith)
xor_digits_fuel (suc n) zero zero b p q = refl
xor_digits_fuel (suc n) zero (suc a) b p q = absurd (omega arith)
xor_digits_fuel (suc n) (suc m) zero b p q = refl
xor_digits_fuel (suc n) (suc m) (suc a) b p q =
    omega (arith, xor_digits_fuel n m (suc a / 2) (b / 2) (omega arith) (omega arith))

zero-bit_xor : (b : ℕ) → bit_xor 0 b ≡ b
zero-bit_xor b = bit_xor-bitwise 0 b

differ_small : (x y : ℕ) → x < 2 → y < 2 → differ x y < 2
differ_small zero y p q = q
differ_small (suc zero) zero p q = omega arith
differ_small (suc zero) (suc zero) p q = omega arith
differ_small (suc zero) (suc (suc y)) p q = absurd (omega arith)
differ_small (suc (suc x)) y p q = absurd (omega arith)

bit_xor-half : (a b : ℕ) → bit_xor a b / 2 ≡ bit_xor (a / 2) (b / 2)
bit_xor-half zero b = omega (arith, zero-bit_xor b, zero-bit_xor (b / 2))
bit_xor-half (suc a) b = omega (
  arith,
  bit_xor-bitwise (suc a) b,
  bit_xor-bitwise (suc a / 2) (b / 2),
  xor_digits_fuel a (suc a / 2) (suc a / 2) (b / 2) (omega arith) (omega arith),
  differ_small (suc a % 2) (b % 2) (omega arith) (omega arith),
)

half_shift : (k x : ℕ) → x / 2 ^ suc k ≡ x / 2 / 2 ^ k
half_shift k x = ap (λ d. x / d) (pow-succ' 2 k) ∙ sym (div-div-eq-div-mul x 2 (2 ^ k))

-- `(a ^ b) >>> k`, bit by bit.
bit_xor-shift : (k a b : ℕ) → bit_xor a b / 2 ^ k ≡ bit_xor (a / 2 ^ k) (b / 2 ^ k)
bit_xor-shift zero a b = rw (div-one a, div-one b, div-one (bit_xor a b)) refl
bit_xor-shift (suc k) a b =
    rw (half_shift k a, half_shift k b, half_shift k (bit_xor a b), bit_xor-half a b)
      (bit_xor-shift k (a / 2) (b / 2))

different : (u v : ℕ) → (bit_xor u v == 0) ≡ false → u ≢ v
different u v h e = let zero_xor = ap (λ w. bit_xor u w) (sym e) ∙ bit_xor_self u in ground arith

xor_test : (u v : ℕ) → (bit_xor u v == 0) ≡ (u == v)
xor_test u v = elim (Bool-cases (bit_xor u v == 0)) [
  | inl h ↦ h ∙ sym ((==_iff u v).1 (bit_xor-eq-zero u v ((==_iff (bit_xor u v) 0).0 h)))
  | inr h ↦ elim (Bool-cases (u == v)) [
    | inl g ↦ absurd (different u v h ((==_iff u v).0 g))
    | inr g ↦ h ∙ sym g
  ]
]

-- Two numbers agree above a bit exactly where the shifted exclusive or is zero.
pub bit_xor-shift_zero : (k a b : ℕ) → (bit_xor a b / 2 ^ k == 0) ≡ (a / 2 ^ k == b / 2 ^ k)
bit_xor-shift_zero k a b = rw (bit_xor-shift k a b) (xor_test (a / 2 ^ k) (b / 2 ^ k))
