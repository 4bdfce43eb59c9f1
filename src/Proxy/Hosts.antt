-- ===== src/Proxy/Hosts.antt =====
-- index.ts: which host a request arrived on, and which host may serve a share.
pub mod Stored
use htmlradar.Common.{
  ℕ, ◌+◌, ◌≡◌, refl, Text, codes, Option, none, some, List, [], ◌∷◌, ◌++◌, map, Bool, true, false,
  not, ◌&&◌, ◌||◌, length, leb, ltb, ◌==◌, if◌then◌else◌, same, includes, split, trim, to_lower,
  is_lower_alnum, is_some, or_else,
}
use htmlradar.Proxy.World.{
  Env, DomainState, pending, live, disconnected, retired, CustomDomain, Share, Method, get, head,
  post, other, Protocol, https, Url, Location, to_url, Response, not_found, redirect, Read, got,
  down, World,
}

abbrev share_host_default : Text
share_host_default = codes "htmlradar.page"

abbrev legacy_hosts_default : Text
legacy_hosts_default = codes "htmlradar.com"

unfoldable pub share_host_of : Env → Text
share_host_of env = or_else env.share_host share_host_default

unfoldable pub is_local : Text → Bool
is_local hostname =
    same hostname (codes "localhost")
    || same hostname (codes "127.0.0.1")
    || same hostname (codes "[::1]")

abbrev pub origin_host : Text
origin_host = codes "htmlradar.com"

-- `.filter(Boolean)`
abbrev pub nonempty_only : List Text → List Text
nonempty_only [] = []
nonempty_only ([] ∷ ts) = nonempty_only ts
nonempty_only ((c ∷ t) ∷ ts) = (c ∷ t) ∷ nonempty_only ts

-- `setting.split(',').map((s) => s.trim().toLowerCase()).filter(Boolean)`
unfoldable pub comma_list : Text → List Text
comma_list setting = nonempty_only (map (λ s. to_lower (trim s)) (split b',' setting))

unfoldable pub is_legacy_host : Text → Env → Bool
unfolding comma_list
is_legacy_host hostname env =
    includes (comma_list (or_else env.legacy_hosts legacy_hosts_default)) (to_lower hostname)

pub data HostKind : Type 0 where
  apex : HostKind
  handle : (handle : Text) → HostKind
  custom : (domain_id owner_id : Text) → HostKind
  claim : (domain_id : Text) → HostKind
  refused : HostKind

abbrev pub is_label_char : ℕ → Bool
is_label_char c = is_lower_alnum c || c == b'-'

abbrev pub starts_alnum : Text → Bool
starts_alnum [] = false
starts_alnum (c ∷ s) = is_lower_alnum c

abbrev pub ends_alnum : Text → Bool
ends_alnum [] = false
ends_alnum (c ∷ []) = is_lower_alnum c
ends_alnum (c ∷ d ∷ s) = ends_alnum (d ∷ s)

abbrev pub all_label_chars : Text → Bool
all_label_chars [] = true
all_label_chars (c ∷ s) = is_label_char c && all_label_chars s

-- `HANDLE_LABEL`: the pattern `[a-z0-9](?:[a-z0-9-]{1,22})[a-z0-9]`, so three characters at least.
unfoldable pub is_handle_label : Text → Bool
is_handle_label s =
    leb 3 (length s) && leb (length s) 24 && starts_alnum s && ends_alnum s && all_label_chars s

-- `label.includes('--')`
unfoldable pub has_double_hyphen : Text → Bool
has_double_hyphen [] = false
has_double_hyphen (c ∷ []) = false
has_double_hyphen (c ∷ d ∷ s) = c == b'-' && d == b'-' || has_double_hyphen (d ∷ s)

abbrev pub fallback_origin_label : Text
fallback_origin_label = codes "customers"

-- `host.endsWith(suffix)`, with what stands in front of the suffix.
unfoldable pub strip_suffix : Text → Text → Option Text
strip_suffix suffix [] = if same [] suffix then some [] else none
strip_suffix suffix (c ∷ s) = elim (same (c ∷ s) suffix) [
  | true ↦ some []
  | false ↦ elim (strip_suffix suffix s) [ none ↦ none | some front ↦ some (c ∷ front) ]
]

-- The label of a host under the apex.
unfoldable pub handle_kind : Text → HostKind
handle_kind label =
    if same label fallback_origin_label
    then refused
    else if not (is_handle_label label) || has_double_hyphen label
    then refused
    else handle label

-- A claim's row: `state=neq.retired` is the query's, and a row of any other state is refused.
unfoldable pub claim_kind : Option CustomDomain → HostKind
claim_kind none = refused
claim_kind (some domain) = elim domain.state [
  | live ↦ custom domain.id domain.owner_id
  | pending ↦ claim domain.id
  | disconnected ↦ claim domain.id
  | retired ↦ refused
]

-- The apex, a legacy host that is served in place, the host of old links, and local runs.
unfoldable pub is_apex_host : Env → Text → Bool
unfolding is_local is_legacy_host share_host_of
is_apex_host env host =
    same host (to_lower (share_host_of env))
    || is_legacy_host host env
    || same host origin_host
    || is_local host

claim_read : Read (Option CustomDomain) → Read HostKind
unfolding claim_kind
claim_read down = down
claim_read (got found) = got (claim_kind found)

under_apex : World → Text → Option Text → Read HostKind
unfolding claim_read handle_kind
under_apex w host (some label) = got (handle_kind label)
under_apex w host none = claim_read (w.get_custom_domain_by_hostname host)

unfoldable pub resolve_host : World → Env → Text → Read HostKind
unfolding is_apex_host under_apex strip_suffix
resolve_host w env hostname =
    let host = to_lower hostname in
    if is_apex_host env host
    then got apex
    else under_apex w host (strip_suffix (b'.' ∷ to_lower (share_host_of env)) host)

unfoldable pub handle_links_enabled : Env → Bool
handle_links_enabled env = same (trim (or_else env.trust_handles [])) (codes "*")

unfoldable pub wrapper_enabled : Text → Env → Bool
unfolding comma_list
wrapper_enabled slug env =
    let setting = trim (or_else env.trust_wrapper []) in
    if same setting []
    then false
    else if same setting (codes "*")
    then true
    else includes (comma_list setting) slug

abbrev pub is_live : Option DomainState → Bool
is_live (some live) = true
is_live _ = false

-- `a === b` where one side may be null.
abbrev pub is_text : Option Text → Text → Bool
is_text none t = false
is_text (some s) t = same s t

abbrev pub stays_get : Method → Bool
stays_get get = true
stays_get head = true
stays_get _ = false

-- The apex: a stored handle is where the share lives, if handle links are on.
unfoldable pub enforce_apex : Share → Url → Method → Env → Option Response
enforce_apex share url method env = elim share.host_handle [
  | none ↦ none
  | some label ↦
      if not (handle_links_enabled env)
      then none
      else some (
          redirect (if stays_get method then 301 else 308) (
            to_url (record url { hostname = label ++ b'.' ∷ share_host_of env; protocol = https })))
]

-- A response when the request must be answered here, and none when it may go on.
unfoldable pub enforce_stored_host : HostKind → Share → Url → Method → Env → Option Response
unfolding enforce_apex
enforce_stored_host refused share url method env = some not_found
enforce_stored_host (claim domain_id) share url method env = some not_found
enforce_stored_host (custom domain_id owner_id) share url method env =
    if is_text share.custom_domain_id domain_id
      && is_text share.custom_domain_owner_id owner_id
      && same share.owner_id owner_id
      && is_live share.custom_domain_state
    then none
    else some not_found
enforce_stored_host (handle label) share url method env =
    if is_some share.custom_domain_id
    then some not_found
    else if is_text share.host_handle label
    then none
    else some not_found
enforce_stored_host apex share url method env =
    if is_some share.custom_domain_id then some not_found else enforce_apex share url method env
