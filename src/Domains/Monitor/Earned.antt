-- ===== src/Domains/Monitor/Earned.antt =====
-- The monitor brings a hostname live only when Cloudflare says so and the probe reached the claim.
use htmlradar.Common.{Text, codes, ◌++◌, Bool, false, ◌&&◌, leb, ltb, same}
use htmlradar.Domains.Store.{Visit, unanswered, page}
use htmlradar.Domains.Monitor.{DomainCheck, passed, header_is}

-- A visit that shows the claim: a page of the 200s, in at most 256 bytes, with the id of the claim in
-- our header and as its text.
unfoldable pub answers_for : Text → Visit → Bool
answers_for id (unanswered m) = false
answers_for id (page code header body size) =
    leb 200 code
    && ltb code 300
    && leb size 256
    && header_is header id
    && same body (codes "htmlradar-domain:" ++ id)

-- Where the monitor's check passes, the visit shows the claim.
abbrev IsPassed : DomainCheck → Type 0
IsPassed (passed a b) = Unit
IsPassed _ = ⊥
