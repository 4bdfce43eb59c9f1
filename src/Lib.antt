-- ===== src/Lib.antt =====
-- HTMLRadar serves an HTML document behind a share link and tells its sender how it was read. The
-- parts: a Cloudflare Worker (packages/proxy) that answers every request for a share, a script
-- (packages/tracker) that it puts into the page and that measures reading, an application
-- (packages/app) in which senders manage shares, and an HTTP API with a connector for assistants.
--
-- Common: texts as lists of UTF-16 code units with the string methods the source uses (Strings,
-- Splits), decimal numbers (Decimal), bytes (Bits), tests and lists.
--
-- Proxy, of packages/proxy/src:
--   Proxy/Auth is auth.ts. Its functions keep their names in snake case. `Date.now` is an argument
--   in seconds; Web Crypto, TextEncoder and base64 are the record `Platform`. What the standards say
--   of base64, that a signature is bytes, and what UTF-8 gives back are the records
--   `IsBase64Standard`, `IsSigner` and `IsUtf8`, each a hypothesis where it is needed. Nothing else is
--   assumed of the signature: the theorems say which text was signed, not that it cannot be forged.
--   Proxy/World holds the rows of supabase.ts, the settings of env.ts and the replies. A response is
--   a constructor with the data it carries; the HTML of the pages is not modelled. The database, the
--   document store and the clock are the record `World`, fixed during one request. A read of the
--   database may throw `UpstreamError` (`down`).
--   Proxy/Hosts is `resolveHost`, `enforceStoredHost` and the switches of index.ts, Proxy/Routes its
--   path patterns, Proxy/Gates the allow-list and the form submissions.
--   Proxy/Fetching is fetch-html.ts: the loop over redirects with its log of requests, in Policy which
--   URLs may be fetched, in Addresses the IP parsers and tables. `URL`, `fetch`, DNS and the bucket
--   are the record `Net`. The loop recurses on the hops that are left, four as in the source.
--   Proxy/Handler is `handleRequest`, a chain of stages in the order of the source in the monad
--   `Step`: a stage ends the request with an outcome, or goes on with a value. Its children read an
--   outcome back through the stages.
--
-- Tracker, of packages/tracker/src:
--   Tracker/Session is session.ts as a state machine: `step` delivers one event of the page (a
--   listener, a timer, an animation frame, the answer of a request, or a call that the page makes of
--   `window.HTMLRadar`, api.ts) to the session's fields. A flush
--   is two steps, up to its request and behind its answer, with any events in between. Instants are
--   whole milliseconds, a scroll depth is a fraction, and the reported sections are an input.
--   Tracker/Sections is the sampler of sections-v2.ts: `tick` and `sample` on the sections of a
--   document, with the layout as an input, and `snapshot`, which makes what the session reports. A
--   covered fraction is a pair of pixel counts, compared by products: the visible part, and the
--   smaller of the section's height and the window's. A timestamp does not precede an earlier one.
--
-- App, of packages/app/src:
--   App/Billing is lib/quota.ts and lib/annual-switch.ts, App/Redirects is lib/safe-next.ts, beside what the
--   URL standard makes of its answer.
--
-- Domains, a customer's own hostname, of packages/app/src/lib/custom-domains.ts and, from
-- packages/monitor/src/index.ts, `domainLifecycle`:
--   Domains/Store is the row of the claim with its owner's default, and `Prog`: a service's work as a
--   tree of its calls and conditional UPDATEs, one node for each `await` that leaves the process. What
--   Cloudflare, the probed hostname and the database answer is an `Answers`, which is arbitrary; a
--   write may be lost before or behind the database. An UPDATE is atomic, as one SQL statement is.
--   Domains/Hostnames holds the rules for a name; Claims, Connect, Check and Disconnect the functions
--   of custom-domains.ts, Monitor the monitor's. A function is split where it awaits: what follows an
--   answer is a definition of its own, by clauses on the answer. `try` is the case `threw`.
--   Domains/Schedule runs any number of requests and cycles side by side on one row: a `Move` begins
--   one or gives one its next answer. Domains/Lifecycle is the specification, a relation between rows,
--   and Domains/Evidence what has to be seen before a hostname goes live. Domains/Alone runs one
--   program to its end. One row is followed from its INSERT on, with its owner's default: a claim of
--   the same hostname anew is another row, and an UPDATE of another profile is not followed. Instants
--   are numbers.
--
-- The parts meet at the share: Proxy serves it with the tracker injected, Tracker reports the reading,
-- App decides what an account may create, and Domains moves the claim that Proxy/Hosts reads when a
-- request comes in on a customer's hostname. They share the tiers and states of Proxy/World.
-- Recursion is structural; beside the four hops no fuel is used.
--
-- Not modelled: the HTML of pages and the injection of the tracker (inject.ts, wrapper.ts,
-- responses.ts), the SQL of schema/, the rest of the application, the discovery of sections
-- (sections-v2.ts) and sections-legacy.ts, the connector, the health checks of the monitor, the
-- look-up of a DNS provider, and the triggers that refuse an UPDATE in the database (here it is
-- `db_failed`). Numbers are unbounded naturals: what
-- `Number.parseInt` makes of an expiry above 2^53 is not modelled. The id of a domain and a handle are
-- taken as not empty where the source tests them for truth. Code units beyond ASCII are not folded to lower case, and the white space of `trim`
-- is that up to U+00A0.
pub mod Common
pub mod Proxy
pub mod Tracker
pub mod App
pub mod Domains
