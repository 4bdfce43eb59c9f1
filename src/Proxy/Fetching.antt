-- ===== src/Proxy/Fetching.antt =====
-- packages/proxy/src/fetch-html.ts: the document of a share, out of the store or from the sender's URL.
-- `URL`, `fetch`, DNS over HTTPS and the bucket are the record `Net`; what it answers may change from
-- one hop to the next.
pub mod Addresses
pub mod Policy
pub mod Hops
pub mod Received
use Prim.Native.Char.{code}
use htmlradar.Common.{
  ℕ, zero, suc, ◌+◌, ◌*◌, Text, codes, Option, none, some, List, [], ◌∷◌, ◌++◌, Bool, true, false,
  not, ◌&&◌, ◌||◌, if◌then◌else◌, ◌==◌, ltb, leb, length, any, same, includes, or_else, to_lower,
  trim, starts_with, ends_with, contains, is_some,
}
use htmlradar.Common.Decimal.{Parsed, nan, number, minus, parse_int}
use htmlradar.Proxy.Fetching.Addresses.{
  Ipv4, parse_ipv4, parse_ipv6, is_blocked_ipv4, is_public_ipv6, is_blocked_address,
}
unfoldable pub use Policy.*

abbrev pub max_body_bytes : ℕ
max_body_bytes = 30 * 1024 * 1024

abbrev pub max_redirects : ℕ
max_redirects = 3

-- What was asked of the network, in order, and what came of it.
pub record Fetched : Type 0 where
  pub requests : List Text
  pub html : Option (List ℕ)

-- `readCapped`: the bytes that arrive are what counts.
prepend : List ℕ → Option (List ℕ) → Option (List ℕ)
prepend c none = none
prepend c (some bytes) = some (c ++ bytes)

read_chunks : ℕ → List (List ℕ) → Bool → Option (List ℕ)
unfolding prepend
read_chunks total [] broken = if broken then none else some []
read_chunks total (c ∷ cs) broken =
    let rest = read_chunks (total + length c) cs broken in
    if ltb max_body_bytes (total + length c) then none else prepend c rest

unfoldable pub read_capped : Option Body → Option (List ℕ)
unfolding read_chunks
read_capped none = none
read_capped (some body) = read_chunks 0 body.chunks body.broken

-- The declared length is too long.
abbrev pub is_too_long : Parsed → Bool
is_too_long (number n) = ltb max_body_bytes n
is_too_long _ = false

-- What a response that is no redirect yields.
unfoldable pub received : Upstream → Option (List ℕ)
unfolding read_capped
received r =
    if not (leb 200 r.status && ltb r.status 300)
    then none
    else if not (contains (to_lower (or_else r.content_type [])) (codes "html"))
    then none
    else if is_too_long (parse_int (or_else r.content_length []))
    then none
    else read_capped r.body

abbrev pub nothing : Fetched
nothing = record { requests = []; html = none }

-- A request, and what follows it.
abbrev pub asked : Text → Fetched → Fetched
asked url f = record f { requests = url ∷ f.requests }

abbrev pub is_redirect : Upstream → Bool
is_redirect r = leb 300 r.status && ltb r.status 400

-- Where a redirect leads.
next_url : Net → Text → Option Text → Option Text
next_url net url none = none
next_url net url (some []) = none
next_url net url (some (c ∷ location)) = net.resolve (c ∷ location) url

-- What one turn of the loop comes to: no request, one that failed, a redirect, or a response.
pub data Hop : Type 0 where
  refused lost : Hop
  redirected : (saw_https : Bool) → (url : Text) → Hop
  final : Option (List ℕ) → Hop

located : Bool → Option Text → Hop
located saw none = lost
located saw (some next) = redirected saw next

replied : Net → Bool → Text → Option Upstream → Hop
unfolding located next_url
replied net saw url none = lost
replied net saw url (some upstream) =
    if is_redirect upstream
    then located saw (next_url net url upstream.location)
    else final (received upstream)

abbrev pub is_https : Url → Bool
is_https target = same target.protocol (codes "https:")

hop_to : Net → ℕ → Bool → Text → Option Url → Hop
unfolding replied
hop_to net left saw url none = refused
hop_to net left saw url (some target) =
    if not (is_public_http_url net url)
    then refused
    else if not (is_https target) && saw
    then refused
    else if not (resolves_to_public_addresses net left target.hostname)
    then refused
    else replied net (saw || is_https target) url (net.fetch left url)

-- The body of the loop of `fetchExternal`.
unfoldable pub hop : Net → ℕ → Bool → Text → Hop
unfolding hop_to
hop net left saw url = hop_to net left saw url (net.parse_url url)

-- How the loop goes on.
unfoldable pub follow : Text → Hop → (Bool → Text → Fetched) → Fetched
follow url refused rest = nothing
follow url lost rest = asked url nothing
follow url (redirected saw next) rest = asked url (rest saw next)
follow url (final bytes) rest = asked url (record { requests = []; html = bytes })

unfoldable pub fetch_hops : Net → ℕ → Bool → Text → Fetched
unfolding hop follow
fetch_hops net zero saw url = nothing
fetch_hops net (suc left) saw url =
    follow url (hop net left saw url) (λ s next. fetch_hops net left s next)

unfoldable pub fetch_external : Net → Text → Fetched
unfolding fetch_hops
fetch_external net url = fetch_hops net (max_redirects + 1) false url

-- `fetchDocumentHtml`: the type of the source, and its key or URL.
stored_html : Net → Option Text → Fetched
stored_html net none = nothing
stored_html net (some []) = nothing
stored_html net (some (c ∷ key)) = record { requests = []; html = net.bucket (c ∷ key) }

external_html : Net → Option Text → Fetched
unfolding fetch_external
external_html net none = nothing
external_html net (some []) = nothing
external_html net (some (c ∷ url)) = fetch_external net (c ∷ url)

unfoldable pub fetch_document_html :
    Net → (source_type : Text) → (r2_key source_url : Option Text) → Fetched
unfolding stored_html external_html
fetch_document_html net source_type r2_key source_url =
    if same source_type (codes "upload")
    then stored_html net r2_key
    else external_html net source_url
