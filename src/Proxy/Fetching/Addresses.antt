-- ===== src/Proxy/Fetching/Addresses.antt =====
-- packages/proxy/src/fetch-html.ts: IP addresses as text, and which of them are globally routable.
pub mod Ranges
use Prim.Native.Char.{code}
use Prim.Native.Nat.{bit_and, bit_xor}
use htmlradar.Common.{
  ℕ, ◌+◌, ◌-◌, ◌*◌, ◌/◌, ◌%◌, ◌^◌, min, Text, codes, Option, none, some, List, [], ◌∷◌, ◌++◌, Bool,
  true, false, not, ◌&&◌, ◌||◌, if◌then◌else◌, ◌==◌, ltb, leb, length, all, any, is_digit, push,
  split, or_else, includes, to_lower, trim, ◌>>=◌, zero, suc,
}

-- Four octets, and eight groups of sixteen bits.
pub record Ipv4 : Type 0 where
  pub a : ℕ
  pub b : ℕ
  pub c : ℕ
  pub d : ℕ

-- The value of digits in a base: 48 stands before the decimal digits and 87 before a to f.
abbrev digit_value : ℕ → ℕ
digit_value c = if leb c b'9' then c - b'0' else c - 87

value : ℕ → ℕ → Text → ℕ
value base acc [] = acc
value base acc (c ∷ t) = value base (acc * base + digit_value c) t

-- `/^\d{1,3}$/`, at most 255.
unfoldable pub octet : Text → Option ℕ
unfolding value
octet t =
    let n = value 10 0 t in
    if all is_digit t && leb 1 (length t) && leb (length t) 3 && leb n 255 then some n else none

four_octets : List Text → Option Ipv4
unfolding octet
four_octets (p ∷ q ∷ r ∷ s ∷ []) = do
  a ← octet p
  b ← octet q
  c ← octet r
  d ← octet s
  some (record { a = a; b = b; c = c; d = d })
four_octets _ = none

-- `parseIpv4`
unfoldable pub parse_ipv4 : Text → Option Ipv4
unfolding four_octets
parse_ipv4 text = four_octets (split b'.' text)

-- `toU32`: the shifted octets do not overlap, so that their `|` is a sum.
abbrev pub to_u32 : Ipv4 → ℕ
to_u32 x = x.a * 16777216 + x.b * 65536 + x.c * 256 + x.d

abbrev cidr : ℕ → ℕ → ℕ → ℕ → ℕ → ℕ × ℕ
cidr a b c d bits = (to_u32 (record { a = a; b = b; c = c; d = d }), bits)

abbrev pub blocked_ipv4_ranges : List (ℕ × ℕ)
blocked_ipv4_ranges =
    cidr 0 0 0 0 8
    ∷ cidr 10 0 0 0 8
    ∷ cidr 100 64 0 0 10
    ∷ cidr 127 0 0 0 8
    ∷ cidr 169 254 0 0 16
    ∷ cidr 172 16 0 0 12
    ∷ cidr 192 0 0 0 24
    ∷ cidr 192 0 2 0 24
    ∷ cidr 192 168 0 0 16
    ∷ cidr 198 18 0 0 15
    ∷ cidr 198 51 100 0 24
    ∷ cidr 203 0 113 0 24
    ∷ cidr 224 0 0 0 4
    ∷ cidr 240 0 0 0 4
    ∷ []

-- `(addr ^ base) >>> (32 - bits) === 0`
abbrev in_ipv4_range : ℕ → ℕ × ℕ → Bool
in_ipv4_range addr (base, bits) = bit_xor addr base / 2 ^ (32 - bits) == 0

-- `isBlockedIpv4`
unfoldable pub is_blocked_ipv4 : Ipv4 → Bool
is_blocked_ipv4 octets = any (in_ipv4_range (to_u32 octets)) blocked_ipv4_ranges

abbrev is_hex : ℕ → Bool
is_hex c = is_digit c || leb b'a' c && leb c b'f'

-- `/^[0-9a-f]{1,4}$/`
hextet : Text → Option ℕ
unfolding value
hextet t =
    if all is_hex t && leb 1 (length t) && leb (length t) 4 then some (value 16 0 t) else none

-- `text.split('::')`
split_colons : Text → List Text
split_colons [] = [] ∷ []
split_colons (c ∷ []) = (c ∷ []) ∷ []
split_colons (c ∷ d ∷ s) = elim (c == b':' && d == b':') [
  | true ↦ [] ∷ split_colons s
  | false ↦ push c (split_colons (d ∷ s))
]

abbrev two_groups : Ipv4 → List ℕ
two_groups x = (x.a * 256 + x.b) ∷ (x.c * 256 + x.d) ∷ []

-- `groupsOf`: an IPv4 address may stand in the last place.
groups : List Text → Option (List ℕ)
unfolding hextet parse_ipv4
groups [] = some []
groups (t ∷ []) =
    if any (λ c. c == b'.') t
    then parse_ipv4 t >>= (λ x. some (two_groups x))
    else hextet t >>= (λ h. some (h ∷ []))
groups (t ∷ next ∷ ts) =
    let rest = groups (next ∷ ts) in
    if any (λ c. c == b'.') t then none else hextet t >>= (λ h. rest >>= (λ hs. some (h ∷ hs)))

groups_of : Text → Option (List ℕ)
unfolding groups
groups_of [] = some []
groups_of (c ∷ t) = groups (split b':' (c ∷ t))

abbrev zeros : ℕ → List ℕ
zeros zero = []
zeros (suc n) = 0 ∷ zeros n

eight : List ℕ → Option (List ℕ)
eight l = if length l == 8 then some l else none

filled : List ℕ → List ℕ → Option (List ℕ)
filled head tail =
    if ltb (length head + length tail) 8
    then some (head ++ zeros (8 - (length head + length tail)) ++ tail)
    else none

halves_of : List Text → Option (List ℕ)
unfolding groups_of eight filled
halves_of (head ∷ []) = groups_of head >>= eight
halves_of (head ∷ tail ∷ []) = do h ← groups_of head; t ← groups_of tail; filled h t
halves_of _ = none

-- `parseIpv6`
unfoldable pub parse_ipv6 : Text → Option (List ℕ)
unfolding split_colons halves_of
parse_ipv6 text =
    if all (λ c. is_hex c || c == b':' || c == b'.') text && leb 1 (length text)
    then halves_of (split_colons text)
    else none

-- `inIpv6Range`, with the bits that are left from one group on.
unfoldable pub in_ipv6_range : List ℕ → List ℕ → ℕ → Bool
in_ipv6_range addr [] bits = true
in_ipv6_range [] (h ∷ base) bits =
    let width = min 16 bits in
    let rest = in_ipv6_range [] base (bits - 16) in
    bit_and h ((0xffff * 2 ^ (16 - width)) % 0x10000) == 0 && rest
in_ipv6_range (x ∷ addr) (h ∷ base) bits =
    let width = min 16 bits in
    let rest = in_ipv6_range addr base (bits - 16) in
    bit_and (bit_xor x h) ((0xffff * 2 ^ (16 - width)) % 0x10000) == 0 && rest

abbrev ipv6_global_unicast : List ℕ × ℕ
ipv6_global_unicast = (0x2000 ∷ 0 ∷ 0 ∷ 0 ∷ 0 ∷ 0 ∷ 0 ∷ 0 ∷ [], 3)

abbrev non_global_ipv6 : List (List ℕ × ℕ)
non_global_ipv6 =
    (0x100 ∷ 0 ∷ 0 ∷ 0 ∷ 0 ∷ 0 ∷ 0 ∷ 0 ∷ [], 64)
    ∷ (0x64 ∷ 0xff9b ∷ 0 ∷ 0 ∷ 0 ∷ 0 ∷ 0 ∷ 0 ∷ [], 96)
    ∷ (0x64 ∷ 0xff9b ∷ 1 ∷ 0 ∷ 0 ∷ 0 ∷ 0 ∷ 0 ∷ [], 48)
    ∷ (0x2001 ∷ 0 ∷ 0 ∷ 0 ∷ 0 ∷ 0 ∷ 0 ∷ 0 ∷ [], 23)
    ∷ (0x2001 ∷ 0xdb8 ∷ 0 ∷ 0 ∷ 0 ∷ 0 ∷ 0 ∷ 0 ∷ [], 32)
    ∷ (0x2002 ∷ 0 ∷ 0 ∷ 0 ∷ 0 ∷ 0 ∷ 0 ∷ 0 ∷ [], 16)
    ∷ (0x3fff ∷ 0 ∷ 0 ∷ 0 ∷ 0 ∷ 0 ∷ 0 ∷ 0 ∷ [], 20)
    ∷ (0x5f00 ∷ 0 ∷ 0 ∷ 0 ∷ 0 ∷ 0 ∷ 0 ∷ 0 ∷ [], 16)
    ∷ []

-- `isIsatap`
unfoldable pub is_isatap : List ℕ → Bool
is_isatap (a ∷ b ∷ c ∷ d ∷ e ∷ f ∷ rest) = (e == 0 || e == 0x200) && f == 0x5efe
is_isatap _ = false

-- `isPublicIpv6`
unfoldable pub is_public_ipv6 : List ℕ → Bool
unfolding in_ipv6_range is_isatap
is_public_ipv6 addr =
    let (base, bits) = ipv6_global_unicast in
    not (is_isatap addr)
    && in_ipv6_range addr base bits
    && not (any (λ (b, n). in_ipv6_range addr b n) non_global_ipv6)

-- `isBlockedAddress`
unfoldable pub is_blocked_address : Text → Bool
unfolding parse_ipv4 parse_ipv6 is_blocked_ipv4 is_public_ipv6
is_blocked_address text = elim (parse_ipv4 text) [
  | some v4 ↦ is_blocked_ipv4 v4
  | none ↦ elim (parse_ipv6 (to_lower (trim text))) [
    | some v6 ↦ not (is_public_ipv6 v6)
    | none ↦ true
  ]
]
