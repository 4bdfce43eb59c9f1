-- ===== src/Proxy/Auth/Base64.antt =====
-- The signatures and addresses of auth.ts in base64url and in hexadecimal.
use htmlradar.Common.{
  ℕ, zero, suc, ◌+◌, ◌-◌, ◌%◌, ◌/◌, ◌≤◌, ◌<◌, ◌≡◌, ◌≢◌, refl, sym, ap, ◌∙◌, Text, List, [], ◌∷◌,
  ◌++◌, map, All, All-impl, Lacks, arith, some, ◌⊎◌, length, drop, ltb, if◌then◌else◌,
}
use htmlradar.Proxy.Auth.{
  Platform, to_hex, base64url_encode, base64url_decode, drop_pads, url_safe, url_unsafe,
}

abbrev pub replicate : ℕ → ℕ → Text
replicate zero c = []
replicate (suc n) c = c ∷ replicate n c

abbrev pub IsByte : ℕ → Type 0
IsByte b = b < 256

abbrev pub IsBase64 : ℕ → Type 0
IsBase64 c =
    (b'0' ≤ c) × (c ≤ b'9')
    ⊎ (b'A' ≤ c) × (c ≤ b'Z')
    ⊎ (b'a' ≤ c) × (c ≤ b'z')
    ⊎ (c ≡ b'+')
    ⊎ (c ≡ b'/')

-- Not half of a surrogate pair: what `TextEncoder` writes without a replacement character.
abbrev pub IsPlain : ℕ → Type 0
IsPlain c = (c < 0xd800) ⊎ (0xe000 ≤ c) × (c < 0x10000)

-- What `TextDecoder` gives back: it takes a mark U+FEFF off the front of a text.
abbrev pub HasNoMark : Text → Type 0
HasNoMark [] = Unit
HasNoMark (c ∷ s) = c ≢ 0xfeff

-- What the standards say of base64: for bytes, `btoa` writes base64 digits, then at most two `=` that
-- fill up a group of four, and `atob` reads what `btoa` wrote.
pub record IsBase64Standard (p : Platform) : Type 0 where
  pub btoa_shape :
      (bytes : List ℕ)
      → All IsByte bytes
      → (core : Text) × (pads : ℕ) × (p.btoa bytes ≡ core ++ replicate pads b'=')
        × All IsBase64 core
        × ((length core + pads) % 4 ≡ 0)
        × (pads ≤ 2)
  pub atob-btoa : (bytes : List ℕ) → All IsByte bytes → p.atob (p.btoa bytes) ≡ some bytes

-- A signature is a list of bytes.
pub record IsSigner (p : Platform) : Type 0 where
  pub sign_bytes : (key message : List ℕ) → All IsByte (p.sign key message)

-- UTF-8 is a list of bytes, and gives back a text that has no half of a surrogate pair and does not
-- begin with the mark.
pub record IsUtf8 (p : Platform) : Type 0 where
  pub encode_bytes : (t : Text) → All IsByte (p.encode t)
  pub decode-encode : (t : Text) → All IsPlain t → HasNoMark t → p.decode (p.encode t) ≡ t

-- `=` is not in the alphabet, so the pads come off and nothing else.
drop_pads-replicate : (pads : ℕ) → drop_pads (replicate pads b'=') ≡ []
unfolding drop_pads
drop_pads-replicate zero = refl
drop_pads-replicate (suc pads) = rw (drop_pads-replicate pads, drop_pads) refl

drop_pads-append : (s : Text) (pads : ℕ) → Lacks b'=' s → drop_pads (s ++ replicate pads b'=') ≡ s
unfolding drop_pads
drop_pads-append [] pads h = drop_pads-replicate pads
drop_pads-append (c ∷ []) pads (p, h) = rw (drop_pads-replicate pads, drop_pads) (ground arith)
drop_pads-append (c ∷ d ∷ s) pads (p, h) = rw (drop_pads-append (d ∷ s) pads h, drop_pads) refl

map-append : (f : ℕ → ℕ) (s t : Text) → map f (s ++ t) ≡ map f s ++ map f t
map-append f [] t = refl
map-append f (c ∷ s) t = ap (λ u. f c ∷ u) (map-append f s t)

url_safe-pads : (pads : ℕ) → map url_safe (replicate pads b'=') ≡ replicate pads b'='
url_safe-pads zero = refl
url_safe-pads (suc pads) = ap (λ u. b'=' ∷ u) (url_safe-pads pads)

-- A digit of base64url is none of the separators.
abbrev IsUrlSafe : ℕ → Type 0
IsUrlSafe c = (c ≢ b'=') × (c ≢ b'.')

url_safe-IsUrlSafe : (c : ℕ) → IsBase64 c → IsUrlSafe (url_safe c)
url_safe-IsUrlSafe c h = ground arith

url_safe-All : (s : Text) → All IsBase64 s → All IsUrlSafe (map url_safe s)
url_safe-All [] h = tt
url_safe-All (c ∷ s) (p, h) = (url_safe-IsUrlSafe c p, url_safe-All s h)

url_unsafe-url_safe : (c : ℕ) → IsBase64 c → url_unsafe (url_safe c) ≡ c
url_unsafe-url_safe c h = ground arith

url_unsafe-map : (s : Text) → All IsBase64 s → map url_unsafe (map url_safe s) ≡ s
url_unsafe-map [] h = refl
url_unsafe-map (c ∷ s) (p, h) = cc (url_unsafe-url_safe c p, url_unsafe-map s h)

length-map : (f : ℕ → ℕ) (s : Text) → length (map f s) ≡ length s
length-map f [] = refl
length-map f (c ∷ s) = ap suc (length-map f s)

pads_refilled :
    (n pads : ℕ)
    → (n + pads) % 4 ≡ 0
    → pads ≤ 2
    → drop ((n + 3) % 4) (b'=' ∷ b'=' ∷ b'=' ∷ []) ≡ replicate pads b'='
pads_refilled n zero h k = let e : (n + 3) % 4 ≡ 3 = omega arith in rw e
pads_refilled n (suc zero) h k = let e : (n + 3) % 4 ≡ 2 = omega arith in rw e
pads_refilled n (suc (suc zero)) h k = let e : (n + 3) % 4 ≡ 1 = omega arith in rw e
pads_refilled n (suc (suc (suc pads))) h k = absurd (omega arith)

IsBase64-ne-pad : (c : ℕ) → IsBase64 c → c ≢ b'='
IsBase64-ne-pad c h = ground arith

map-url_safe_fixed :
    (s : Text) (pads : ℕ)
    → map url_safe (s ++ replicate pads b'=') ≡ map url_safe s ++ replicate pads b'='
map-url_safe_fixed s pads =
    map-append url_safe s (replicate pads b'=') ∙ ap (λ t. map url_safe s ++ t) (url_safe-pads pads)

abbrev three_pads : Text
three_pads = b'=' ∷ b'=' ∷ b'=' ∷ []

module _ (p : Platform) (std : IsBase64Standard p) where
  -- What `base64url` returns: the digits that `btoa` wrote, in the alphabet for addresses.
  base64url_encode_form :
      (bytes : List ℕ)
      → All IsByte bytes
      → (core : Text) × (pads : ℕ) × (base64url_encode p bytes ≡ map url_safe core)
        × (p.btoa bytes ≡ core ++ replicate pads b'=')
        × All IsBase64 core
        × ((length core + pads) % 4 ≡ 0)
        × (pads ≤ 2)
  unfolding base64url_encode
  base64url_encode_form bytes small =
      let (core, pads, e, digits, whole, few) = std.btoa_shape bytes small in
      let clean =
        All-impl IsUrlSafe (λ c. c ≢ b'=') (map url_safe core) (λ c h. h.0)
          (url_safe-All core digits) in
      (
        core,
        pads,
        ap (λ t. drop_pads (map url_safe t)) e
            ∙ (ap drop_pads (map-url_safe_fixed core pads)
                ∙ drop_pads-append (map url_safe core) pads clean),
        e,
        digits,
        whole,
        few,
      )

  pub base64url-Lacks_dot :
      (bytes : List ℕ) → All IsByte bytes → Lacks b'.' (base64url_encode p bytes)
  base64url-Lacks_dot bytes small =
      let (core, pads, e, _, digits, _, _) = base64url_encode_form bytes small in
      rw e (
        All-impl IsUrlSafe (λ c. c ≢ b'.') (map url_safe core) (λ c h. h.1)
          (url_safe-All core digits))

  decode_digits :
      (core : Text) (pads : ℕ)
      → All IsBase64 core
      → (length core + pads) % 4 ≡ 0
      → pads ≤ 2
      → base64url_decode p (map url_safe core) ≡ p.atob (core ++ replicate pads b'=')
  unfolding base64url_decode
  decode_digits core pads digits whole few =
      ap (λ t. p.atob (t ++ drop ((length (map url_safe core) + 3) % 4) three_pads))
        (url_unsafe-map core digits)
      ∙ (ap (λ n. p.atob (core ++ drop ((n + 3) % 4) three_pads)) (length-map url_safe core)
          ∙ ap (λ t. p.atob (core ++ t)) (pads_refilled (length core) pads whole few))

  -- Where `btoa` and `atob` keep the standard, `base64urlDecode` takes back what `base64urlEncode` wrote
  -- of bytes.
  pub base64url_decode-encode :
      (bytes : List ℕ)
      → All IsByte bytes
      → base64url_decode p (base64url_encode p bytes) ≡ some bytes
  base64url_decode-encode bytes h =
      let (core, pads, e, shape, digits, whole, few) = base64url_encode_form bytes h in
      ap (base64url_decode p) e
      ∙ (decode_digits core pads digits whole few ∙ (ap p.atob (sym shape) ∙ std.atob-btoa bytes h))

to_hex_digit : (n : ℕ) → (if ltb n 10 then b'0' + n else b'a' + (n - 10)) ≢ b'.'
to_hex_digit n e = ground arith

pub to_hex-Lacks_dot : (bytes : List ℕ) → Lacks b'.' (to_hex bytes)
unfolding to_hex
to_hex-Lacks_dot [] = tt
to_hex-Lacks_dot (b ∷ bytes) =
    (to_hex_digit (b / 16), (to_hex_digit (b % 16), to_hex-Lacks_dot bytes))
