-- ===== src/App/Redirects.antt =====
-- lib/safe-next.ts: where a sign-in may send the browser afterwards, and how a browser reads it.
use htmlradar.Common.{
  ℕ, ◌≡◌, not, ◌||◌, ◌&&◌, Bool, true, false, Option, none, some, [], ◌∷◌, Text, codes, ◌==◌,
  if◌then◌else◌,
}

abbrev docs : Text
docs = codes "/docs"

-- A path that begins with one slash: a second slash or a backslash would name another host.
unfoldable pub safe_next : Option Text → Text
safe_next none = docs
safe_next (some []) = docs
safe_next (some (c ∷ [])) = if c == b'/' then c ∷ [] else docs
safe_next (some (c ∷ d ∷ s)) =
    if not (c == b'/') then docs else if d == b'/' || d == b'\\' then docs else c ∷ d ∷ s

-- A tab, a line feed or a carriage return: the URL standard drops them wherever they stand.
abbrev pub is_dropped : ℕ → Bool
is_dropped c = c == 9 || c == 10 || c == 13

abbrev pub without_breaks : Text → Text
without_breaks [] = []
without_breaks (c ∷ s) = if is_dropped c then without_breaks s else c ∷ without_breaks s

abbrev pub is_slash : ℕ → Bool
is_slash c = c == b'/' || c == b'\\'

abbrev pub begins_with_slash : Text → Bool
begins_with_slash [] = false
begins_with_slash (c ∷ s) = is_slash c

abbrev pub begins_with_slashes : Text → Bool
begins_with_slashes [] = false
begins_with_slashes (c ∷ s) = is_slash c && begins_with_slash s

-- What the URL standard takes, on an https address, for the name of another host: two slashes of
-- either kind, once the breaks are dropped.
abbrev pub NamesHost : Text → Type 0
NamesHost t = begins_with_slashes (without_breaks t) ≡ true

-- A slash, a break, and behind any breaks another slash.
abbrev pub HidesSlash : Option Text → Type 0
HidesSlash raw =
    (b : ℕ) × (rest : Text) × (raw ≡ some (b'/' ∷ b ∷ rest))
    × (is_dropped b ≡ true)
    × (begins_with_slash (without_breaks rest) ≡ true)
