-- ===== src/Domains/Hostnames.antt =====
-- custom-domains.ts: which hostnames an account may claim, and the DNS record it is told to add.
pub mod Records
use Prim.Native.Char.{code}
use htmlradar.Common.{
  contains, ends_with, ℕ, ◌+◌, ◌-◌, ◌≤◌, max, Text, codes, Option, none, some, List, [], ◌∷◌, ◌++◌,
  Bool, true, false, not, ◌&&◌, ◌||◌, if◌then◌else◌, same, includes, split, trim, to_lower,
  starts_with, length, take, drop, ltb, leb, ◌==◌, any, map, or_else, is_some, ◌≡◌, refl,
}
use htmlradar.Common.Splits.{join}
use htmlradar.Proxy.Hosts.{starts_alnum, ends_alnum, all_label_chars, nonempty_only}

-- The settings that the module reads from the environment.
pub record Settings : Type 0 where
  pub custom_domains_enabled : Option Text
  pub custom_domains_pilot_owners : Option Text
  pub share_host : Text

-- `switchedOn`
switched_on : Option Text → Bool
switched_on setting =
    let raw = to_lower (trim (or_else setting [])) in
    same raw (codes "1") || same raw (codes "true")

unfoldable pub custom_domains_enabled : Settings → Bool
unfolding switched_on
custom_domains_enabled e = switched_on e.custom_domains_enabled

unfoldable pub pilot_owners : Settings → List Text
pilot_owners e =
    let raw = trim (or_else e.custom_domains_pilot_owners []) in
    if same (to_lower raw) (codes "all") then [] else nonempty_only (map trim (split b',' raw))

abbrev pilot_hostnames : List Text
pilot_hostnames = codes "decks.gethtmlradar.com" ∷ codes "links.gethtmlradar.com" ∷ []

abbrev is_empty : List Text → Bool
is_empty [] = true
is_empty (t ∷ ts) = false

unfoldable pub is_pilot_hostname : Settings → Text → Bool
unfolding pilot_owners
is_pilot_hostname e hostname = not (is_empty (pilot_owners e)) && includes pilot_hostnames hostname

-- `.replace(/^[a-z]+:\/\//, '')`: what follows the letters, if there are any.
after_letters : Text → Text
after_letters [] = []
after_letters (c ∷ s) =
    let rest = after_letters s in if leb b'a' c && leb c b'z' then rest else c ∷ s

strip_scheme : Text → Text
unfolding after_letters
strip_scheme s =
    let rest = after_letters s in
    if ltb (length rest) (length s) && starts_with rest (codes "://") then drop 3 rest else s

-- `.replace(/[/?#].*$/, '')`; a dot of the pattern stands for no line break.
no_line_break : Text → Bool
no_line_break [] = true
no_line_break (c ∷ s) = not (c == 10 || c == 13 || c == 0x2028 || c == 0x2029) && no_line_break s

cut_path : Text → Text
unfolding no_line_break
cut_path [] = []
cut_path (c ∷ s) =
    let rest = cut_path s in
    if (c == b'/' || c == b'?' || c == b'#') && no_line_break s then [] else c ∷ rest

-- `.replace(/\.+$/, '')`
strip_dots : Text → Text
strip_dots [] = []
strip_dots (c ∷ s) = elim (strip_dots s) [
  | [] ↦ if c == b'.' then [] else c ∷ []
  | d ∷ t ↦ c ∷ d ∷ t
]

unfoldable pub normalize_hostname : Text → Text
unfolding strip_scheme cut_path strip_dots
normalize_hostname raw = strip_dots (cut_path (strip_scheme (to_lower (trim raw))))

abbrev multi_part_suffixes : List Text
multi_part_suffixes =
    codes "co.uk"
    ∷ codes "org.uk"
    ∷ codes "ac.uk"
    ∷ codes "co.in"
    ∷ codes "com.au"
    ∷ codes "co.nz"
    ∷ codes "com.sg"
    ∷ codes "co.jp"
    ∷ codes "com.br"
    ∷ codes "com.mx"
    ∷ codes "co.za"
    ∷ []

abbrev our_domains : Settings → List Text
our_domains e =
    codes "htmlradar.page" ∷ codes "htmlradar.com" ∷ codes "gethtmlradar.com" ∷ e.share_host ∷ []

-- `LABEL`
unfoldable pub is_label : Text → Bool
is_label s = starts_alnum s && ends_alnum s && all_label_chars s

-- The number of labels of the public suffix: those of the first listed one that the name ends in.
suffix_in : List Text → Text → ℕ
suffix_in [] hostname = 1
suffix_in (t ∷ ts) hostname =
    let rest = suffix_in ts hostname in
    if ends_with hostname (b'.' ∷ t) then length (split b'.' t) else rest

unfoldable pub suffix_labels : Text → ℕ
unfolding suffix_in
suffix_labels hostname = suffix_in multi_part_suffixes hostname

pub data Problem : Type 0 where
  no_name too_long ours not_a_domain punycode lookalike bare : Problem

unfoldable pub describe_hostname_problem : Settings → Text → Option Text → Option Problem
unfolding is_pilot_hostname is_label suffix_labels
describe_hostname_problem e raw owner =
    let hostname = normalize_hostname raw in
    let labels = split b'.' hostname in
    if same hostname []
    then some no_name
    else if ltb 253 (length hostname)
    then some too_long
    else if is_pilot_hostname e hostname
    then (if includes (pilot_owners e) (or_else owner []) then none else some ours)
    else if any (λ l. not (is_label l)) labels
    then some not_a_domain
    else if any (λ l. starts_with l (codes "xn--")) labels
    then some punycode
    else if any (λ l. contains l (codes "htmlradar")) labels
    then some lookalike
    else if any (λ t. same hostname t || ends_with hostname (b'.' ∷ t)) (our_domains e)
    then some ours
    else if ltb (length labels) (suffix_labels hostname + 2)
    then some bare
    else none

-- `labels.slice(0, Math.max(1, keep)).join('.')`: the name of the record at the provider.
unfoldable pub short_name : Text → Text
short_name hostname =
    let labels = split b'.' hostname in
    join b'.' (take (max 1 (length labels - (suffix_labels hostname + 1))) labels)

-- `labels.slice(-n).join('.')`
unfoldable pub registrable_domain : Text → Text
registrable_domain hostname =
    let labels = split b'.' hostname in
    join b'.' (drop (length labels - (suffix_labels hostname + 1)) labels)
