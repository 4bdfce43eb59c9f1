-- ===== src/Proxy/Tests/Fetching.antt =====
-- A deck behind a redirect, and addresses that are refused.
use htmlradar.Common.{
  contains, push, ◌≡◌, refl, Text, codes, none, some, [], ◌∷◌, true, false, same, starts_with,
  split, trim, to_lower, ends_with, includes, if◌then◌else◌, All, length, ◌≤◌, arith,
}
use htmlradar.Common.Decimal.{parse_int}
use htmlradar.Proxy.Fetching.{
  Net, Url, Upstream, DnsResponse, fetch_external, is_public_http_url, resolves_to_public_addresses,
  unbracket, received,
}
use htmlradar.Proxy.Fetching.Addresses.{
  Ipv4, parse_ipv4, parse_ipv6, is_blocked_ipv4, is_blocked_address,
}
use htmlradar.Proxy.Fetching.Addresses.Ranges.{is_blocked_ipv4-is_special, is_special}
use htmlradar.Proxy.Fetching.Hops.{fetch_external-requests, IsVetted, IsUpward}
use htmlradar.Proxy.Fetching.Received.{fetch_external-IsDelivered, IsDelivered}

abbrev secure : Text
secure = codes "https://acme.com/deck"

abbrev plain : Text
plain = codes "http://acme.com/deck"

abbrev url_of : Text → Url
url_of protocol = record {
  protocol = protocol;
  username = [];
  password = [];
  hostname = codes "acme.com";
}

abbrev records : DnsResponse
records = record {
  status = some 0;
  answer = record { type_code = 1; data_text = codes "93.184.216.34" } ∷ [];
}

abbrev deck : Upstream
deck = record {
  status = 200;
  location = none;
  content_type = some (codes "text/html");
  content_length = none;
  body = some (record { chunks = codes "<p>" ∷ codes "hi" ∷ []; broken = false });
}

abbrev redirect : Upstream
redirect = record deck { status = 301; location = some secure }

abbrev net : Net
unfolding same starts_with
net = record {
  parse_url = λ t.
      if starts_with t (codes "https:")
      then some (url_of (codes "https:"))
      else if starts_with t (codes "http:")
      then some (url_of (codes "http:"))
      else none;
  resolve = λ location base. some location;
  dns = λ left host. some (some records, some (record { status = some 0; answer = [] }));
  fetch = λ left url. some (if same url secure then deck else redirect);
  bucket = λ key. none;
}

fetch_external-requests_example :
    All (IsVetted net) (fetch_external net plain).requests
    × IsUpward net (fetch_external net plain).requests
    × (length (fetch_external net plain).requests ≤ 4)
fetch_external-requests_example = fetch_external-requests net plain

fetch_external-IsDelivered_example :
    IsDelivered net (fetch_external net plain).requests (fetch_external net plain).html
fetch_external-IsDelivered_example = fetch_external-IsDelivered net plain

deck_delivered : (fetch_external net plain).html ≡ some (codes "<p>hi")
unfolding fetch_external net is_public_http_url to_lower includes ends_with parse_ipv4 split
    resolves_to_public_addresses parse_ipv6 unbracket is_blocked_address received contains parse_int
deck_delivered = refl

abbrev metadata : Ipv4
metadata = record { a = 169; b = 254; c = 169; d = 254 }

is_blocked_ipv4-is_special_example : is_blocked_ipv4 metadata ≡ is_special metadata
is_blocked_ipv4-is_special_example =
    is_blocked_ipv4-is_special metadata (omega arith) (omega arith) (omega arith) (omega arith)

metadata_read : parse_ipv4 (codes "169.254.169.254") ≡ some metadata
unfolding parse_ipv4 split
metadata_read = refl

mapped_address :
    parse_ipv6 (codes "::ffff:1.2.3.4") ≡ some (0 ∷ 0 ∷ 0 ∷ 0 ∷ 0 ∷ 0xffff ∷ 0x102 ∷ 0x304 ∷ [])
unfolding parse_ipv6 push split
mapped_address = refl

mapped_blocked : is_blocked_address (codes "::ffff:1.2.3.4") ≡ true
unfolding is_blocked_address split to_lower trim
mapped_blocked = refl

isatap_blocked : is_blocked_address (codes "2606:4700::5efe:169.254.169.254") ≡ true
unfolding is_blocked_address split push to_lower trim
isatap_blocked = refl

global_kept : is_blocked_address (codes "2606:4700::1111") ≡ false
unfolding is_blocked_address split push to_lower trim
global_kept = refl
