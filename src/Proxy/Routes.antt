-- ===== src/Proxy/Routes.antt =====
-- index.ts: the four patterns that `handleRequest` matches the path against. A pattern has no class
-- that holds a slash, so it is matched on the parts between the slashes.
use htmlradar.Common.{
  ℕ, ◌≡◌, refl, Text, codes, Option, none, some, List, [], ◌∷◌, Bool, true, ◌&&◌, ◌||◌, length, leb,
  ◌==◌, if◌then◌else◌, same, split, to_lower, lower_code, is_lower_alnum, is_digit,
}

pub data Subroute : Type 0 where
  auth email report frame print : Subroute

pub data Route : Type 0 where
  preview_of : (doc_id : Text) → Route
  file_of : (slug id : Text) → Route
  share_of : (slug : Text) → Option Subroute → Route
  no_match : Route

-- `[a-z0-9-]+` under the flag `i`
abbrev pub is_slug_char : ℕ → Bool
is_slug_char c = is_lower_alnum (lower_code c) || c == b'-'

abbrev pub all_slug_chars : Text → Bool
all_slug_chars [] = true
all_slug_chars (c ∷ s) = is_slug_char c && all_slug_chars s

unfoldable pub is_slug : Text → Bool
is_slug s = leb 1 (length s) && all_slug_chars s

-- `[a-f0-9-]{8,}` under the flag `i`
abbrev pub is_id_char : ℕ → Bool
is_id_char c = is_digit c || leb b'a' (lower_code c) && leb (lower_code c) b'f' || c == b'-'

abbrev pub all_id_chars : Text → Bool
all_id_chars [] = true
all_id_chars (c ∷ s) = is_id_char c && all_id_chars s

unfoldable pub is_id : Text → Bool
is_id s = leb 8 (length s) && all_id_chars s

-- `(auth|email|report|frame|print)`
unfoldable pub subroute_of : Text → Option Subroute
subroute_of s =
    let name = to_lower s in
    if same name (codes "auth")
    then some auth
    else if same name (codes "email")
    then some email
    else if same name (codes "report")
    then some report
    else if same name (codes "frame")
    then some frame
    else if same name (codes "print")
    then some print
    else none

plain_route : Text → Route
plain_route a = if is_slug a then share_of (to_lower a) none else no_match

sub_route : Text → Text → Route
sub_route a b =
    if same (to_lower a) (codes "_doc")
    then (if is_id b then preview_of b else no_match)
    else elim (subroute_of b) [
      | none ↦ no_match
      | some sub ↦ if is_slug a then share_of (to_lower a) (some sub) else no_match
    ]

file_route : Text → Text → Text → Route
file_route a b c =
    if same (to_lower b) (codes "m") && is_slug a && is_id c
    then file_of (to_lower a) c
    else no_match

-- What follows `/r/`, with one slash more at the end or none.
after_r : List Text → Route
unfolding plain_route sub_route file_route
after_r (a ∷ []) = plain_route a
after_r (a ∷ [] ∷ []) = plain_route a
after_r (a ∷ (c ∷ b) ∷ []) = sub_route a (c ∷ b)
after_r (a ∷ b ∷ [] ∷ []) = sub_route a b
after_r (a ∷ b ∷ (d ∷ c) ∷ []) = file_route a b (d ∷ c)
after_r (a ∷ b ∷ c ∷ [] ∷ []) = file_route a b c
after_r _ = no_match

route_parts : List Text → Route
unfolding after_r
route_parts ([] ∷ r ∷ rest) = if same (to_lower r) (codes "r") then after_r rest else no_match
route_parts _ = no_match

unfoldable pub route_of : Text → Route
unfolding route_parts is_slug is_id subroute_of
route_of pathname = route_parts (split b'/' pathname)

routes :
    (route_of (codes "/r/Acme-Deck/AUTH/") ≡ share_of (codes "acme-deck") (some auth))
    × (route_of (codes "/r/acme/m/0A1b2c3d") ≡ file_of (codes "acme") (codes "0A1b2c3d"))
    × (route_of (codes "/r/_doc/0123-abcd") ≡ preview_of (codes "0123-abcd"))
    × (route_of (codes "/r/acme//") ≡ no_match)
    × (route_of (codes "/r/") ≡ no_match)
    × (route_of (codes "/r/acme/") ≡ share_of (codes "acme") none)
unfolding route_of split same to_lower
routes = (refl, refl, refl, refl, refl, refl)
