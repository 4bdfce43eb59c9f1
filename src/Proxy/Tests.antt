-- ===== src/Proxy/Tests.antt =====
-- The worker on concrete inputs: a platform that keeps the standards, one share with a password, its
-- readers and their requests.
mod Tokens
mod Requests
mod Submissions
mod Fetching
use Prim.Native.Char.{code}
use htmlradar.Common.{
  ℕ, zero, suc, ◌+◌, ◌-◌, ◌*◌, ◌/◌, ◌%◌, ◌≤◌, ◌<◌, ◌≡◌, refl, Text, codes, Option, none, some, List,
  [], ◌∷◌, ◌++◌, All, arith, inl, inr, ap, length, sym, append-nil,
}
use htmlradar.Proxy.Auth.{Platform}
use htmlradar.Proxy.Auth.Base64.{
  IsByte, IsBase64, IsPlain, IsBase64Standard, IsSigner, IsUtf8, replicate,
}

-- Two bytes for a character, four letters for a byte, and the key with the message for a signature.
abbrev pub write : Text → List ℕ
write [] = []
write (c ∷ s) = ((c / 256) % 256) ∷ (c % 256) ∷ write s

abbrev pub read_back : List ℕ → Text
read_back (a ∷ b ∷ bytes) = (a * 256 + b) ∷ read_back bytes
read_back _ = []

abbrev pub letters : List ℕ → Text
letters [] = []
letters (b ∷ bytes) = (b'A' + (b / 16) % 16) ∷ (b'A' + b % 16) ∷ b'A' ∷ b'A' ∷ letters bytes

abbrev pub unletters : Text → List ℕ
unletters (a ∷ b ∷ c ∷ d ∷ s) = ((a - b'A') * 16 + (b - b'A')) ∷ unletters s
unletters _ = []

abbrev pub small : List ℕ → List ℕ
small [] = []
small (b ∷ bytes) = (b % 256) ∷ small bytes

abbrev pub toy : Platform
toy = record {
  encode = write;
  decode = read_back;
  sign = λ key message. small key ++ small message;
  btoa = letters;
  atob = λ s. some (unletters s);
}

letter_shape :
    (bytes : List ℕ)
    → (core : Text) × (pads : ℕ) × (letters bytes ≡ core ++ replicate pads b'=')
      × All IsBase64 core
      × ((length core + pads) % 4 ≡ 0)
      × (pads ≤ 2)
letter_shape bytes =
    (letters bytes, 0, refl_append (letters bytes), base bytes, fours bytes, omega arith)
  where
    refl_append : (s : Text) → s ≡ s ++ []
    refl_append s = sym (append-nil s)

    fours : (bs : List ℕ) → (length (letters bs) + 0) % 4 ≡ 0
    fours [] = refl
    fours (b ∷ bs) = let h = fours bs in omega arith

    base : (bs : List ℕ) → All IsBase64 (letters bs)
    base [] = tt
    base (b ∷ bs) = (
      inr (inl (omega arith, omega arith)),
      (
        inr (inl (omega arith, omega arith)),
        (inr (inl (omega arith, omega arith)), (inr (inl (omega arith, omega arith)), base bs)),
      ),
    )

unletters-letters : (bytes : List ℕ) → All IsByte bytes → unletters (letters bytes) ≡ bytes
unletters-letters [] h = refl
unletters-letters (b ∷ bytes) (small, h) =
    let same_byte : (b'A' + (b / 16) % 16 - b'A') * 16 + (b'A' + b % 16 - b'A') ≡ b = omega arith in
    rw (same_byte, unletters-letters bytes h) refl

write_bytes : (t : Text) → All IsByte (write t)
write_bytes [] = tt
write_bytes (c ∷ t) = (omega arith, (omega arith, write_bytes t))

read_back-write : (t : Text) → All IsPlain t → read_back (write t) ≡ t
read_back-write [] h = refl
read_back-write (c ∷ t) (inl small, h) =
    let same_char : ((c / 256) % 256) * 256 + c % 256 ≡ c = omega arith in
    rw (same_char, read_back-write t h) refl
read_back-write (c ∷ t) (inr (_, small), h) =
    let same_char : ((c / 256) % 256) * 256 + c % 256 ≡ c = omega arith in
    rw (same_char, read_back-write t h) refl

joined_bytes : (k m : List ℕ) → All IsByte (small k ++ small m)
joined_bytes [] [] = tt
joined_bytes [] (b ∷ m) = (omega arith, joined_bytes [] m)
joined_bytes (b ∷ k) m = (omega arith, joined_bytes k m)

pub toy-IsBase64Standard : IsBase64Standard toy
toy-IsBase64Standard = record {
  btoa_shape = λ bytes h. letter_shape bytes;
  atob-btoa = λ bytes h. ap some (unletters-letters bytes h);
}

pub toy-IsSigner : IsSigner toy
toy-IsSigner = record { sign_bytes = joined_bytes }

pub toy-IsUtf8 : IsUtf8 toy
toy-IsUtf8 = record { encode_bytes = write_bytes; decode-encode = λ t h m. read_back-write t h }
