-- ===== src/Proxy/Fetching/Hops.antt =====
-- Every request that the loop makes was vetted, and none of them goes back from https to http.
use htmlradar.Common.{
  ℕ, zero, suc, ◌+◌, ◌≤◌, ◌≡◌, ◌⊎◌, refl, ◌∙◌, sym, inl, inr, Text, codes, Option, none, some, List,
  [], ◌∷◌, Bool, true, false, not, ◌&&◌, ◌||◌, if◌then◌else◌, length, same, same_sound, same_iff,
  ap, includes, to_lower, All, Bool-cases, arith,
}
use htmlradar.Proxy.Fetching.{
  Net, Url, Upstream, Fetched, Hop, refused, lost, redirected, final, is_public_http_url,
  is_public_url, resolves_to_public_addresses, is_https, located, replied, hop_to, hop, follow,
  fetch_hops, fetch_external, max_redirects, blocked_host_names, next_url, is_redirect,
}

-- The URL is http or https with no credentials, its host is none of the blocked names, and the
-- addresses that the host spells or resolves to are public.
abbrev pub IsVetted : Net → Text → Type 0
IsVetted net url =
    (target : Url) × (left : ℕ) × (net.parse_url url ≡ some target)
    × ((target.protocol ≡ codes "http:") ⊎ (target.protocol ≡ codes "https:"))
    × (target.username ≡ [])
    × (target.password ≡ [])
    × (includes blocked_host_names (to_lower target.hostname) ≡ false)
    × (resolves_to_public_addresses net left target.hostname ≡ true)

abbrev pub IsSecure : Net → Text → Type 0
IsSecure net url =
    (target : Url) × (net.parse_url url ≡ some target) × (target.protocol ≡ codes "https:")

-- Behind an https request there are only https requests.
abbrev pub IsUpward : Net → List Text → Type 0
IsUpward net [] = Unit
IsUpward net (u ∷ us) = (IsSecure net u → All (IsSecure net) us) × IsUpward net us

-- What a turn that made a request shows: the URL was vetted, and is https if one was before.
abbrev IsAsked : Net → Bool → Text → Hop → Type 0
IsAsked net saw url refused = Unit
IsAsked net saw url lost = IsVetted net url × (saw ≡ true → IsSecure net url)
IsAsked net saw url (redirected s next) =
    IsVetted net url
    × (saw ≡ true → IsSecure net url)
    × (IsSecure net url → s ≡ true)
    × (saw ≡ true → s ≡ true)
IsAsked net saw url (final bytes) = IsVetted net url × (saw ≡ true → IsSecure net url)

located-IsAsked :
    (net : Net) (saw s : Bool) (url : Text) (x : Option Text)
    → IsVetted net url
    → (saw ≡ true → IsSecure net url)
    → (IsSecure net url → s ≡ true)
    → (saw ≡ true → s ≡ true)
    → IsAsked net saw url (located s x)
unfolding located
located-IsAsked net saw s url none v w a b = (v, w)
located-IsAsked net saw s url (some next) v w a b = (v, w, a, b)

replied-IsAsked :
    (net : Net) (saw s : Bool) (url : Text) (x : Option Upstream)
    → IsVetted net url
    → (saw ≡ true → IsSecure net url)
    → (IsSecure net url → s ≡ true)
    → (saw ≡ true → s ≡ true)
    → IsAsked net saw url (replied net s url x)
unfolding replied
replied-IsAsked net saw s url none v w a b = (v, w)
replied-IsAsked net saw s url (some up) v w a b = elim (Bool-cases (is_redirect up)) [
  | inl t ↦ rw t (located-IsAsked net saw s url (next_url net url up.location) v w a b)
  | inr f ↦ rw f (v, w)
]

unless-IsAsked :
    (net : Net) (saw : Bool) (url : Text) (b : Bool) (q : Hop)
    → (b ≡ false → IsAsked net saw url q)
    → IsAsked net saw url (if b then refused else q)
unless-IsAsked net saw url true q h = tt
unless-IsAsked net saw url false q h = h refl

public-url :
    (net : Net) (url : Text) (target : Url)
    → net.parse_url url ≡ some target
    → not (is_public_http_url net url) ≡ false
    → is_public_url target ≡ true
unfolding is_public_http_url
public-url net url target e h =
    let public : is_public_http_url net url ≡ true = ground arith in
    rw (is_public_http_url, e) at public

is_https_sound : (target : Url) → is_https target ≡ true → target.protocol ≡ codes "https:"
is_https_sound target h = same_sound target.protocol (codes "https:") h

is_https_complete :
    (net : Net) (url : Text) (target : Url)
    → net.parse_url url ≡ some target
    → IsSecure net url
    → is_https target ≡ true
is_https_complete net url target e (t, p, q) =
    let both : some t ≡ some target = sym p ∙ e in
    let one : t ≡ target = cc in
    (same_iff target.protocol (codes "https:")).1 (ap (λ u. u.protocol) (sym one) ∙ q)

vetted :
    (net : Net) (left : ℕ) (url : Text) (target : Url)
    → net.parse_url url ≡ some target
    → is_public_url target ≡ true
    → not (resolves_to_public_addresses net left target.hostname) ≡ false
    → IsVetted net url
unfolding is_public_url
vetted net left url target e p r = (
  target,
  left,
  e,
  elim (Bool-cases (same target.protocol (codes "http:"))) [
    | inl h ↦ inl (same_sound target.protocol (codes "http:") h)
    | inr h ↦ inr (same_sound target.protocol (codes "https:") (ground arith))
  ],
  same_sound target.username [] (ground arith),
  same_sound target.password [] (ground arith),
  ground arith,
  ground arith,
)

hop_to-IsAsked :
    (net : Net) (left : ℕ) (saw : Bool) (url : Text) (x : Option Url)
    → net.parse_url url ≡ x
    → IsAsked net saw url (hop_to net left saw url x)
unfolding hop_to
hop_to-IsAsked net left saw url none e = tt
hop_to-IsAsked net left saw url (some target) e =
    unless-IsAsked net saw url (not (is_public_http_url net url)) _ λ p.
      unless-IsAsked net saw url (not (is_https target) && saw) _ λ d.
        unless-IsAsked net saw url (not (resolves_to_public_addresses net left target.hostname))
          (replied net (saw || is_https target) url (net.fetch left url))
          λ r.
            replied-IsAsked net saw (saw || is_https target) url (net.fetch left url)
              (vetted net left url target e (public-url net url target e p) r)
              (λ b. (target, e, is_https_sound target (ground arith)))
              (λ b. let it = is_https_complete net url target e b in ground arith)
              (λ b. ground arith)

IsUpward-IsSecure : (net : Net) (us : List Text) → All (IsSecure net) us → IsUpward net us
IsUpward-IsSecure net [] h = tt
IsUpward-IsSecure net (u ∷ us) (a, h) = (λ b. h, IsUpward-IsSecure net us h)

-- What a run of the loop shows of its requests, from a turn and from the rest.
abbrev AreAsked : Net → ℕ → Bool → Fetched → Type 0
AreAsked net left saw f =
    All (IsVetted net) f.requests
    × IsUpward net f.requests
    × (saw ≡ true → All (IsSecure net) f.requests)
    × (length f.requests ≤ left)

follow-AreAsked :
    (net : Net) (left : ℕ) (saw : Bool) (url : Text) (x : Hop) (rest : Bool → Text → Fetched)
    → IsAsked net saw url x
    → ((s : Bool) (next : Text) → AreAsked net left s (rest s next))
    → AreAsked net (suc left) saw (follow url x rest)
unfolding follow
follow-AreAsked net left saw url refused rest a h = (tt, tt, λ b. tt, omega arith)
follow-AreAsked net left saw url lost rest (v, w) h =
    ((v, tt), (λ b. tt, tt), λ b. (w b, tt), omega arith)
follow-AreAsked net left saw url (final bytes) rest (v, w) h =
    ((v, tt), (λ b. tt, tt), λ b. (w b, tt), omega arith)
follow-AreAsked net left saw url (redirected s next) rest (v, w, up, on) h =
    let (vs, us, ss, len) = h s next in
    ((v, vs), (λ b. ss (up b), us), λ b. (w b, ss (on b)), omega arith)

fetch_hops-AreAsked :
    (net : Net) (left : ℕ) (saw : Bool) (url : Text)
    → AreAsked net left saw (fetch_hops net left saw url)
unfolding fetch_hops hop
fetch_hops-AreAsked net zero saw url = (tt, tt, λ b. tt, omega arith)
fetch_hops-AreAsked net (suc left) saw url =
    follow-AreAsked net left saw url (hop net left saw url) (λ s next. fetch_hops net left s next)
      (hop_to-IsAsked net left saw url (net.parse_url url) refl)
      (λ s next. fetch_hops-AreAsked net left s next)

-- Whatever the URL and whatever the redirects, every request of `fetchExternal` is to a URL of http or
-- https without credentials, whose host is none of the blocked names and spells or resolves to public
-- addresses only; behind an https request there are only https ones; and there are four at most.
pub fetch_external-requests :
    (net : Net) (url : Text)
    → All (IsVetted net) (fetch_external net url).requests
      × IsUpward net (fetch_external net url).requests
      × (length (fetch_external net url).requests ≤ 4)
unfolding fetch_external
fetch_external-requests net url =
    let (vs, us, ss, len) = fetch_hops-AreAsked net (max_redirects + 1) false url in (vs, us, len)
