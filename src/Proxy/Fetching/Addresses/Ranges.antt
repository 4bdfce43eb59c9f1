-- ===== src/Proxy/Fetching/Addresses/Ranges.antt =====
-- The blocked ranges, read off the octets.
use htmlradar.Common.{
  ℕ, ◌+◌, ◌*◌, ◌/◌, ◌^◌, ◌-◌, ◌<◌, ◌≡◌, refl, Bool, true, false, ◌&&◌, ◌||◌, ◌==◌, leb, ltb, arith,
  ◌∙◌, any, [], ◌∷◌, ==_iff, Bool-cases, inl, inr,
}
use htmlradar.Common.Bits.{bit_xor-shift_zero}
use htmlradar.Proxy.Fetching.Addresses.{Ipv4, is_blocked_ipv4, to_u32, in_ipv4_range}

-- Special-purpose addresses, as the IANA registry names them.
unfoldable pub is_special : Ipv4 → Bool
is_special x =
    any (λ b. b)
      ((x.a == 0)
        ∷ (x.a == 10)
        ∷ (x.a == 100 && leb 64 x.b && ltb x.b 128)
        ∷ (x.a == 127)
        ∷ (x.a == 169 && x.b == 254)
        ∷ (x.a == 172 && leb 16 x.b && ltb x.b 32)
        ∷ (x.a == 192 && x.b == 0 && x.c == 0)
        ∷ (x.a == 192 && x.b == 0 && x.c == 2)
        ∷ (x.a == 192 && x.b == 168)
        ∷ (x.a == 198 && leb 18 x.b && ltb x.b 20)
        ∷ (x.a == 198 && x.b == 51 && x.c == 100)
        ∷ (x.a == 203 && x.b == 0 && x.c == 113)
        ∷ (leb 224 x.a)
        ∷ [])

test : (u v : ℕ) (b : Bool) → (u ≡ v → b ≡ true) → (b ≡ true → u ≡ v) → (u == v) ≡ b
test u v true h k = (==_iff u v).1 (k refl)
test u v false h k = elim (Bool-cases (u == v)) [
  | inl e ↦ absurd (ground (arith, h ((==_iff u v).0 e)))
  | inr e ↦ e
]

module _ (x : Ipv4) (p : x.b < 256) (q : x.c < 256) (r : x.d < 256) where
  shift :
      (base bits : ℕ)
      → in_ipv4_range (to_u32 x) (base, bits)
        ≡ (to_u32 x / 2 ^ (32 - bits) == base / 2 ^ (32 - bits))
  shift base bits = bit_xor-shift_zero (32 - bits) (to_u32 x) base

  -- A range by the quotient that its addresses share.
  range :
      (base bits : ℕ) (b : Bool)
      → (to_u32 x / 2 ^ (32 - bits) ≡ base / 2 ^ (32 - bits) → b ≡ true)
      → (b ≡ true → to_u32 x / 2 ^ (32 - bits) ≡ base / 2 ^ (32 - bits))
      → in_ipv4_range (to_u32 x) (base, bits) ≡ b
  range base bits b h k =
      shift base bits ∙ test (to_u32 x / 2 ^ (32 - bits)) (base / 2 ^ (32 - bits)) b h k

  by_8 : (n : ℕ) → in_ipv4_range (to_u32 x) (n * 16777216, 8) ≡ (x.a == n)
  by_8 n = range (n * 16777216) 8 (x.a == n) (λ e. ground arith) (λ e. ground arith)

  by_16 :
      (n m : ℕ)
      → m < 256
      → in_ipv4_range (to_u32 x) (n * 16777216 + m * 65536, 16) ≡ (x.a == n && x.b == m)
  by_16 n m h =
      range (n * 16777216 + m * 65536) 16 (x.a == n && x.b == m) (λ e. ground arith)
        (λ e. ground arith)

  by_24 :
      (n m l : ℕ)
      → m < 256
      → l < 256
      → in_ipv4_range (to_u32 x) (n * 16777216 + m * 65536 + l * 256, 24)
        ≡ (x.a == n && x.b == m && x.c == l)
  by_24 n m l h k =
      range (n * 16777216 + m * 65536 + l * 256) 24 (x.a == n && x.b == m && x.c == l)
        (λ e. ground arith) (λ e. ground arith)

  shared :
      in_ipv4_range (to_u32 x) (100 * 16777216 + 64 * 65536, 10)
      ≡ (x.a == 100 && leb 64 x.b && ltb x.b 128)
  shared =
      range (100 * 16777216 + 64 * 65536) 10 (x.a == 100 && leb 64 x.b && ltb x.b 128)
        (λ e. ground arith) (λ e. ground arith)

  private_172 :
      in_ipv4_range (to_u32 x) (172 * 16777216 + 16 * 65536, 12)
      ≡ (x.a == 172 && leb 16 x.b && ltb x.b 32)
  private_172 =
      range (172 * 16777216 + 16 * 65536) 12 (x.a == 172 && leb 16 x.b && ltb x.b 32)
        (λ e. ground arith) (λ e. ground arith)

  benchmarking :
      in_ipv4_range (to_u32 x) (198 * 16777216 + 18 * 65536, 15)
      ≡ (x.a == 198 && leb 18 x.b && ltb x.b 20)
  benchmarking =
      range (198 * 16777216 + 18 * 65536) 15 (x.a == 198 && leb 18 x.b && ltb x.b 20)
        (λ e. ground arith) (λ e. ground arith)

  multicast : in_ipv4_range (to_u32 x) (224 * 16777216, 4) ≡ (leb 224 x.a && ltb x.a 240)
  multicast =
      range (224 * 16777216) 4 (leb 224 x.a && ltb x.a 240) (λ e. ground arith) (λ e. ground arith)

  reserved : in_ipv4_range (to_u32 x) (240 * 16777216, 4) ≡ (leb 240 x.a && ltb x.a 256)
  reserved =
      range (240 * 16777216) 4 (leb 240 x.a && ltb x.a 256) (λ e. ground arith) (λ e. ground arith)

  -- The last two ranges meet.
  top :
      x.a < 256
      → (leb 224 x.a && ltb x.a 240 || (leb 240 x.a && ltb x.a 256 || false))
        ≡ (leb 224 x.a || false)
  top o = ground arith

-- For octets below 256, `isBlockedIpv4`, which compares shifted bits, blocks exactly the special-purpose
-- addresses of the registry: the fourteen ranges, read off the octets.
pub is_blocked_ipv4-is_special :
    (x : Ipv4) → x.a < 256 → x.b < 256 → x.c < 256 → x.d < 256 → is_blocked_ipv4 x ≡ is_special x
unfolding is_blocked_ipv4 is_special
is_blocked_ipv4-is_special x o p q r =
    rw
      (
        by_8 x p q r 0,
        by_8 x p q r 10,
        shared x p q r,
        by_8 x p q r 127,
        by_16 x p q r 169 254 (omega arith),
        private_172 x p q r,
        by_24 x p q r 192 0 0 (omega arith) (omega arith),
        by_24 x p q r 192 0 2 (omega arith) (omega arith),
        by_16 x p q r 192 168 (omega arith),
        benchmarking x p q r,
        by_24 x p q r 198 51 100 (omega arith) (omega arith),
        by_24 x p q r 203 0 113 (omega arith) (omega arith),
        multicast x p q r,
        reserved x p q r,
        top x p q r o,
      )
      refl
