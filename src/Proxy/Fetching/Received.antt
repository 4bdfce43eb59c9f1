-- ===== src/Proxy/Fetching/Received.antt =====
-- What the loop hands on is the whole body of an HTML response, and not too long.
use htmlradar.Common.{
  ℕ, zero, suc, ◌+◌, ◌≤◌, ◌<◌, ◌≡◌, refl, inl, inr, Text, codes, Option, none, some, List, [], ◌∷◌,
  ◌++◌, Bool, true, false, not, ◌&&◌, ◌||◌, if◌then◌else◌, length, length-append, ltb, leb,
  contains, to_lower, or_else, Bool-cases, arith, ap, includes, same_refl,
}
use htmlradar.Common.Decimal.{parse_int}
use htmlradar.Proxy.Fetching.{
  Net, Url, Body, Upstream, Fetched, Hop, refused, lost, redirected, final, is_https, located,
  replied, hop_to, hop, follow, fetch_hops, fetch_external, max_redirects, max_body_bytes, next_url,
  is_redirect, received, read_capped, read_chunks, prepend, is_too_long, is_public_http_url,
  resolves_to_public_addresses,
}

abbrev joined : List (List ℕ) → List ℕ
joined [] = []
joined (c ∷ cs) = c ++ joined cs

-- The bytes are those of a body that did not break off, of a response of the 200s that says it is HTML,
-- and they are not too many.
abbrev pub IsReceived : Upstream → List ℕ → Type 0
IsReceived r bytes =
    (200 ≤ r.status)
    × (r.status < 300)
    × (contains (to_lower (or_else r.content_type [])) (codes "html") ≡ true)
    × ((body : Body) × (r.body ≡ some body)
        × (body.broken ≡ false)
        × (bytes ≡ joined body.chunks)
        × (length bytes ≤ max_body_bytes))

-- What reading on from a total yields.
abbrev IsRead : ℕ → List (List ℕ) → Bool → Option (List ℕ) → Type 0
IsRead total cs broken none = Unit
IsRead total cs broken (some bytes) =
    (broken ≡ false) × (bytes ≡ joined cs) × (total + length bytes ≤ max_body_bytes)

prepend-IsRead :
    (total : ℕ) (c : List ℕ) (cs : List (List ℕ)) (broken : Bool) (x : Option (List ℕ))
    → IsRead (total + length c) cs broken x
    → IsRead total (c ∷ cs) broken (prepend c x)
unfolding prepend
prepend-IsRead total c cs broken none h = tt
prepend-IsRead total c cs broken (some bytes) (b, e, l) =
    (b, ap (λ t. c ++ t) e, omega (arith, length-append c bytes))

unless-IsRead :
    (total : ℕ) (cs : List (List ℕ)) (broken b : Bool) (x : Option (List ℕ))
    → (b ≡ false → IsRead total cs broken x)
    → IsRead total cs broken (if b then none else x)
unless-IsRead total cs broken true x h = tt
unless-IsRead total cs broken false x h = h refl

read_chunks-IsRead :
    (total : ℕ) (cs : List (List ℕ)) (broken : Bool)
    → total ≤ max_body_bytes
    → IsRead total cs broken (read_chunks total cs broken)
unfolding read_chunks
read_chunks-IsRead total [] true h = tt
read_chunks-IsRead total [] false h = (refl, refl, omega arith)
read_chunks-IsRead total (c ∷ cs) broken h =
    unless-IsRead total (c ∷ cs) broken (ltb max_body_bytes (total + length c))
      (prepend c (read_chunks (total + length c) cs broken))
      λ b.
        prepend-IsRead total c cs broken (read_chunks (total + length c) cs broken)
          (read_chunks-IsRead (total + length c) cs broken (ground arith))

-- What a response yields, if anything.
abbrev IsYielded : Upstream → Option (List ℕ) → Type 0
IsYielded r none = Unit
IsYielded r (some bytes) = IsReceived r bytes

unless-IsYielded :
    (r : Upstream) (b : Bool) (x : Option (List ℕ))
    → (b ≡ false → IsYielded r x)
    → IsYielded r (if b then none else x)
unless-IsYielded r true x h = tt
unless-IsYielded r false x h = h refl

kept-IsYielded :
    (r : Upstream) (body : Body) (x : Option (List ℕ))
    → r.body ≡ some body
    → 200 ≤ r.status
    → r.status < 300
    → contains (to_lower (or_else r.content_type [])) (codes "html") ≡ true
    → IsRead 0 body.chunks body.broken x
    → IsYielded r x
kept-IsYielded r body none e a b c h = tt
kept-IsYielded r body (some bytes) e a b c (k, j, l) = (a, b, c, (body, e, k, j, omega arith))

capped-IsYielded :
    (r : Upstream) (x : Option Body)
    → r.body ≡ x
    → 200 ≤ r.status
    → r.status < 300
    → contains (to_lower (or_else r.content_type [])) (codes "html") ≡ true
    → IsYielded r (read_capped x)
unfolding read_capped
capped-IsYielded r none e a b c = tt
capped-IsYielded r (some body) e a b c =
    kept-IsYielded r body (read_chunks 0 body.chunks body.broken) e a b c
      (read_chunks-IsRead 0 body.chunks body.broken (omega arith))

received-IsYielded : (r : Upstream) → IsYielded r (received r)
unfolding received
received-IsYielded r = unless-IsYielded r (not (leb 200 r.status && ltb r.status 300)) _ λ s.
    unless-IsYielded r (not (contains (to_lower (or_else r.content_type [])) (codes "html"))) _ λ t.
      unless-IsYielded r (is_too_long (parse_int (or_else r.content_length [])))
        (read_capped r.body)
        λ l. capped-IsYielded r r.body refl (ground arith) (ground arith) (ground arith)

-- The document was delivered by one of the requests.
abbrev pub IsDelivered : Net → List Text → Option (List ℕ) → Type 0
IsDelivered net us none = Unit
IsDelivered net us (some bytes) =
    (left : ℕ) × (u : Text) × (r : Upstream) × (net.fetch left u ≡ some r)
    × (includes us u ≡ true)
    × IsReceived r bytes

delivered :
    (net : Net) (left : ℕ) (url : Text) (r : Upstream) (x : Option (List ℕ))
    → net.fetch left url ≡ some r
    → IsYielded r x
    → IsDelivered net (url ∷ []) x
unfolding includes
delivered net left url r none e h = tt
delivered net left url r (some bytes) e h = (left, url, r, e, ground (arith, same_refl url), h)

IsDelivered-later :
    (net : Net) (url : Text) (us : List Text) (x : Option (List ℕ))
    → IsDelivered net us x
    → IsDelivered net (url ∷ us) x
unfolding includes
IsDelivered-later net url us none h = tt
IsDelivered-later net url us (some bytes) (left, u, r, e, i, h) = (left, u, r, e, ground arith, h)

-- A turn that ends the loop with a document.
abbrev IsFinal : Net → Text → Hop → Type 0
IsFinal net url (final bytes) = IsDelivered net (url ∷ []) bytes
IsFinal net url _ = Unit

located-IsFinal :
    (net : Net) (s : Bool) (url : Text) (x : Option Text) → IsFinal net url (located s x)
unfolding located
located-IsFinal net s url none = tt
located-IsFinal net s url (some next) = tt

replied-IsFinal :
    (net : Net) (left : ℕ) (s : Bool) (url : Text) (x : Option Upstream)
    → net.fetch left url ≡ x
    → IsFinal net url (replied net s url x)
unfolding replied
replied-IsFinal net left s url none e = tt
replied-IsFinal net left s url (some r) e = elim (Bool-cases (is_redirect r)) [
  | inl t ↦ rw t (located-IsFinal net s url (next_url net url r.location))
  | inr f ↦ rw f (delivered net left url r (received r) e (received-IsYielded r))
]

unless-IsFinal :
    (net : Net) (url : Text) (b : Bool) (q : Hop)
    → IsFinal net url q
    → IsFinal net url (if b then refused else q)
unless-IsFinal net url true q h = tt
unless-IsFinal net url false q h = h

hop_to-IsFinal :
    (net : Net) (left : ℕ) (saw : Bool) (url : Text) (x : Option Url)
    → IsFinal net url (hop_to net left saw url x)
unfolding hop_to
hop_to-IsFinal net left saw url none = tt
hop_to-IsFinal net left saw url (some target) =
    unless-IsFinal net url (not (is_public_http_url net url)) _ (
      unless-IsFinal net url (not (is_https target) && saw) _ (
        unless-IsFinal net url (not (resolves_to_public_addresses net left target.hostname))
          (replied net (saw || is_https target) url (net.fetch left url))
          (replied-IsFinal net left (saw || is_https target) url (net.fetch left url) refl)))

follow-IsDelivered :
    (net : Net) (url : Text) (x : Hop) (rest : Bool → Text → Fetched)
    → IsFinal net url x
    → ((s : Bool) (next : Text) → IsDelivered net (rest s next).requests (rest s next).html)
    → IsDelivered net (follow url x rest).requests (follow url x rest).html
unfolding follow
follow-IsDelivered net url refused rest a h = tt
follow-IsDelivered net url lost rest a h = tt
follow-IsDelivered net url (final bytes) rest a h = a
follow-IsDelivered net url (redirected s next) rest a h =
    IsDelivered-later net url (rest s next).requests (rest s next).html (h s next)

fetch_hops-IsDelivered :
    (net : Net) (left : ℕ) (saw : Bool) (url : Text)
    → IsDelivered net (fetch_hops net left saw url).requests (fetch_hops net left saw url).html
unfolding fetch_hops hop
fetch_hops-IsDelivered net zero saw url = tt
fetch_hops-IsDelivered net (suc left) saw url =
    follow-IsDelivered net url (hop net left saw url) (λ s next. fetch_hops net left s next)
      (hop_to-IsFinal net left saw url (net.parse_url url))
      (λ s next. fetch_hops-IsDelivered net left s next)

-- A document that `fetchExternal` returns is the whole body, unbroken and of at most thirty megabytes,
-- of a response of the 200s that says it is HTML, to one of the requests that it made.
pub fetch_external-IsDelivered :
    (net : Net) (url : Text)
    → IsDelivered net (fetch_external net url).requests (fetch_external net url).html
unfolding fetch_external
fetch_external-IsDelivered net url = fetch_hops-IsDelivered net (max_redirects + 1) false url
