-- ===== src/Proxy/Fetching/Policy.antt =====
-- fetch-html.ts: the platform as `Net`, and which URLs may be fetched: `isPublicHttpUrl` and
-- `resolvesToPublicAddresses`.
use htmlradar.Common.{
  ℕ, Text, codes, Option, none, some, List, [], ◌∷◌, ◌++◌, Bool, true, false, not, ◌&&◌, ◌||◌,
  if◌then◌else◌, ◌==◌, ltb, length, any, same, includes, or_else, to_lower, starts_with, ends_with,
}
use htmlradar.Proxy.Fetching.Addresses.{
  parse_ipv4, parse_ipv6, is_blocked_ipv4, is_public_ipv6, is_blocked_address,
}

-- A parsed URL.
pub record Url : Type 0 where
  pub protocol : Text
  pub username : Text
  pub password : Text
  pub hostname : Text

-- One answer of the resolver: not ok, or its status and records.
pub record DnsRecord : Type 0 where
  pub type_code : ℕ
  pub data_text : Text

pub record DnsResponse : Type 0 where
  pub status : Option ℕ
  pub answer : List DnsRecord

-- What a body delivers: its chunks, and whether the stream broke off.
pub record Body : Type 0 where
  pub chunks : List (List ℕ)
  pub broken : Bool

pub record Upstream : Type 0 where
  pub status : ℕ
  pub location : Option Text
  pub content_type : Option Text
  pub content_length : Option Text
  pub body : Option Body

-- The platform. The first argument of the calls is the number of hops that are left.
pub record Net : Type 0 where
  pub parse_url : Text → Option Url
  pub resolve : (location base : Text) → Option Text
  pub dns : ℕ → Text → Option (Option DnsResponse × Option DnsResponse)
  pub fetch : ℕ → Text → Option Upstream
  pub bucket : Text → Option (List ℕ)

-- `unbracket`
unbracketed : Text → Option Text
unbracketed [] = none
unbracketed (c ∷ []) = if c == b']' then some [] else none
unbracketed (c ∷ d ∷ t) = elim (unbracketed (d ∷ t)) [ none ↦ none | some s ↦ some (c ∷ s) ]

unfoldable pub unbracket : Text → Text
unfolding unbracketed
unbracket [] = []
unbracket (c ∷ t) = if c == b'[' then or_else (unbracketed t) (c ∷ t) else c ∷ t

abbrev pub blocked_host_names : List Text
blocked_host_names =
    codes "localhost" ∷ codes "localhost.localdomain" ∷ codes "local" ∷ codes "internal" ∷ []

abbrev pub blocked_host_suffixes : List Text
blocked_host_suffixes =
    codes ".localhost"
    ∷ codes ".local"
    ∷ codes ".internal"
    ∷ codes ".home.arpa"
    ∷ codes ".cfargotunnel.com"
    ∷ []

-- The address that a host spells, if it spells one.
abbrev pub public_literal : Text → Bool
public_literal host =
    if starts_with host (codes "[")
    then elim (parse_ipv6 (unbracket host)) [ some v6 ↦ is_public_ipv6 v6 | none ↦ false ]
    else elim (parse_ipv4 host) [ some v4 ↦ not (is_blocked_ipv4 v4) | none ↦ true ]

unfoldable pub is_public_url : Url → Bool
is_public_url u =
    let host = to_lower u.hostname in
    (same u.protocol (codes "http:") || same u.protocol (codes "https:"))
    && same u.username []
    && same u.password []
    && not (same host [])
    && not (includes blocked_host_names host)
    && not (any (ends_with host) blocked_host_suffixes)
    && public_literal host

-- `isPublicHttpUrl`
unfoldable pub is_public_http_url : Net → Text → Bool
unfolding is_public_url
is_public_http_url net raw = elim (net.parse_url raw) [ none ↦ false | some u ↦ is_public_url u ]

-- The records of one lookup that are addresses.
abbrev is_address : DnsRecord → Bool
is_address r = r.type_code == 1 || r.type_code == 28

unfoldable pub addresses_in : List DnsRecord → List Text
addresses_in [] = []
addresses_in (r ∷ rs) =
    let rest = addresses_in rs in if is_address r then r.data_text ∷ rest else rest

abbrev is_ok : Option ℕ → Bool
is_ok none = false
is_ok (some n) = n == 0

-- The loop over the lookups of one hostname: none where one of them failed.
looked_up : Option DnsResponse → Option (List Text)
unfolding addresses_in
looked_up none = none
looked_up (some r) = some (if is_ok r.status then addresses_in r.answer else [])

all_public : Option (List Text) → Option (List Text) → Bool
all_public (some v4) (some v6) =
    not (any is_blocked_address (v4 ++ v6)) && ltb 0 (length (v4 ++ v6))
all_public _ _ = false

resolved : Option (Option DnsResponse × Option DnsResponse) → Bool
unfolding looked_up all_public
resolved none = false
resolved (some (v4, v6)) = all_public (looked_up v4) (looked_up v6)

-- `resolvesToPublicAddresses`
unfoldable pub resolves_to_public_addresses : Net → ℕ → Text → Bool
unfolding resolved
resolves_to_public_addresses net left hostname = elim (parse_ipv4 hostname) [
  | some v4 ↦ not (is_blocked_ipv4 v4)
  | none ↦ elim (parse_ipv6 (unbracket hostname)) [
    | some v6 ↦ is_public_ipv6 v6
    | none ↦ resolved (net.dns left hostname)
  ]
]
