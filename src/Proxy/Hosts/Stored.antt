-- ===== src/Proxy/Hosts/Stored.antt =====
-- Which host serves a share: the rules of index.ts, stated without the order of its tests.
use htmlradar.Common.{
  ◌≡◌, ◌≢◌, refl, Text, Option, none, some, [], ◌∷◌, ◌++◌, true, false, ◌↔◌, ◌⊎◌, inl, inr, arith,
  same, same_iff, same_sound, ◌&&◌, ◌||◌, not, to_lower, Bool-cases, Option-cases, ap,
}
use htmlradar.Proxy.World.{
  Env, Share, Method, Url, World, CustomDomain, DomainState, live, pending, disconnected, retired,
  got, down, Read,
}
use htmlradar.Proxy.Hosts.{
  HostKind, apex, handle, custom, claim, refused, handle_links_enabled, enforce_stored_host,
  strip_suffix, resolve_host, share_host_of, is_handle_label, has_double_hyphen, handle_kind,
  claim_kind, claim_read, under_apex, is_apex_host, is_text, is_live, fallback_origin_label,
}

-- A share that names a custom domain is served on that domain alone, while the claim is live and
-- the claim, the joined row and the share name one owner. A share that names a handle is served on
-- that handle's host, and on the apex only while handle links are off. Any other share is served on
-- the apex.
abbrev pub MayServe : Env → HostKind → Share → Type 0
MayServe env apex share =
    (share.custom_domain_id ≡ none)
    × ((share.host_handle ≡ none) ⊎ (handle_links_enabled env ≡ false))
MayServe env (handle label) share =
    (share.custom_domain_id ≡ none) × (share.host_handle ≡ some label)
MayServe env (custom domain_id owner_id) share =
    (share.custom_domain_id ≡ some domain_id)
    × (share.custom_domain_owner_id ≡ some owner_id)
    × (share.owner_id ≡ owner_id)
    × (share.custom_domain_state ≡ some live)
MayServe env (claim domain_id) share = ⊥
MayServe env refused share = ⊥

is_text_iff : (o : Option Text) (t : Text) → (is_text o t ≡ true) ↔ (o ≡ some t)
is_text_iff none t = ((λ h. cc), (λ h. cc))
is_text_iff (some s) t = (λ h. ap some (same_sound s t h), λ e. (same_iff s t).1 (cc))

is_live-eq : (o : Option DomainState) → is_live o ≡ true → o ≡ some live
is_live-eq (some live) h = refl
is_live-eq _ h = cc

custom_iff :
    (d o : Text) (share : Share)
    → ((is_text share.custom_domain_id d
          && is_text share.custom_domain_owner_id o
          && same share.owner_id o
          && is_live share.custom_domain_state)
        ≡ true)
      ↔ ((share.custom_domain_id ≡ some d)
          × (share.custom_domain_owner_id ≡ some o)
          × (share.owner_id ≡ o)
          × (share.custom_domain_state ≡ some live))
custom_iff d o share = (
  λ h. ground (
    arith,
    is_text_iff share.custom_domain_id d,
    is_text_iff share.custom_domain_owner_id o,
    same_iff share.owner_id o,
    is_live-eq share.custom_domain_state,
  ),
  λ (p, q, r, s). rw (
    (is_text_iff share.custom_domain_id d).1 p,
    (is_text_iff share.custom_domain_owner_id o).1 q,
    (same_iff share.owner_id o).1 r,
    s,
  ),
)

-- A request goes on to the share exactly when its host may serve the share.
pub enforce_stored_host_iff :
    (env : Env) (host : HostKind) (share : Share) (url : Url) (method : Method)
    → (enforce_stored_host host share url method env ≡ none) ↔ MayServe env host share
unfolding enforce_stored_host
enforce_stored_host_iff env apex share url method = ground arith
enforce_stored_host_iff env (handle label) share url method = (
  λ e. ground (arith, is_text_iff share.host_handle label),
  λ (p, q). rw (p, (is_text_iff share.host_handle label).1 q),
)
enforce_stored_host_iff env (custom domain_id owner_id) share url method = (
  λ e. (custom_iff domain_id owner_id share).0 (ground arith),
  λ h. rw ((custom_iff domain_id owner_id share).1 h),
)
enforce_stored_host_iff env (claim domain_id) share url method = (λ e. cc, λ h. absurd h)
enforce_stored_host_iff env refused share url method = (λ e. cc, λ h. absurd h)

strip_suffix_sound :
    (suffix s : Text) {front : Text} → strip_suffix suffix s ≡ some front → s ≡ front ++ suffix
unfolding strip_suffix
strip_suffix_sound suffix [] e = ground (arith, same_iff [] suffix)
strip_suffix_sound suffix (c ∷ s) {front} e = elim (Bool-cases (same (c ∷ s) suffix)) [
  | inl h ↦ let empty : front ≡ [] = ground (arith, e) in rw empty ((same_iff (c ∷ s) suffix).0 h)
  | inr h ↦ elim (Option-cases (strip_suffix suffix s)) [
    | inl lost ↦ absurd (let f : ⊥ = ground (arith, e) in f)
    | inr (t, found) ↦
        let longer : front ≡ c ∷ t = ground (arith, e) in
        rw longer (ap (λ u. c ∷ u) (strip_suffix_sound suffix s found))
  ]
]

-- A label that a handle host may carry: three to twenty-four lower-case letters, digits and
-- hyphens, alphanumeric at both ends, no two hyphens in a row, and not the fallback origin.
abbrev pub IsHandle : Text → Type 0
IsHandle label =
    (is_handle_label label ≡ true)
    × (has_double_hyphen label ≡ false)
    × (label ≢ fallback_origin_label)

-- What it means that a hostname was resolved to a kind of host.
abbrev pub IsResolved : World → Env → Text → HostKind → Type 0
IsResolved w env host apex = Unit
IsResolved w env host (handle label) =
    (host ≡ label ++ b'.' ∷ to_lower (share_host_of env)) × IsHandle label
IsResolved w env host (custom domain_id owner_id) =
    (row : CustomDomain) × (w.get_custom_domain_by_hostname host ≡ got (some row))
    × (row.state ≡ live)
    × (row.id ≡ domain_id)
    × (row.owner_id ≡ owner_id)
IsResolved w env host (claim domain_id) =
    (row : CustomDomain) × (w.get_custom_domain_by_hostname host ≡ got (some row))
    × ((row.state ≡ pending) ⊎ (row.state ≡ disconnected))
    × (row.id ≡ domain_id)
IsResolved w env host refused = Unit

handle_kind_sound :
    (w : World) (env : Env) (label host : Text)
    → host ≡ label ++ b'.' ∷ to_lower (share_host_of env)
    → IsResolved w env host (handle_kind label)
unfolding handle_kind
handle_kind_sound w env label host e = elim (Bool-cases (same label fallback_origin_label)) [
  | inl h ↦ rw h tt
  | inr h ↦ elim (Bool-cases (not (is_handle_label label) || has_double_hyphen label)) [
    | inl k ↦ rw (h, k) tt
    | inr k ↦
        rw (h, k)
          (
            e,
            (
              ground (arith, k),
              ground (arith, k),
              λ f. ground (arith, same_iff label fallback_origin_label),
            ),
          )
  ]
]

claim_kind_sound :
    (w : World) (env : Env) (host : Text) (found : Option CustomDomain)
    → w.get_custom_domain_by_hostname host ≡ got found
    → IsResolved w env host (claim_kind found)
unfolding claim_kind
claim_kind_sound w env host none e = tt
claim_kind_sound w env host (some row) e = state_cases row.state refl
  where
    state_cases : (s : DomainState) → row.state ≡ s → IsResolved w env host (claim_kind (some row))
    state_cases live h = rw h (row, e, h, refl, refl)
    state_cases pending h = rw h (row, e, inl h, refl)
    state_cases disconnected h = rw h (row, e, inr h, refl)
    state_cases retired h = rw h tt

claim_read_sound :
    (w : World) (env : Env) (host : Text) (m : Read (Option CustomDomain)) {kind : HostKind}
    → w.get_custom_domain_by_hostname host ≡ m
    → claim_read m ≡ got kind
    → IsResolved w env host kind
unfolding claim_read
claim_read_sound w env host down e h = cc
claim_read_sound w env host (got found) {kind} e h =
    let same_kind : claim_kind found ≡ kind = cc in
    rw (← same_kind) (claim_kind_sound w env host found e)

under_apex_sound :
    (w : World) (env : Env) (host : Text) (label : Option Text) {kind : HostKind}
    → strip_suffix (b'.' ∷ to_lower (share_host_of env)) host ≡ label
    → under_apex w host label ≡ got kind
    → IsResolved w env host kind
unfolding under_apex
under_apex_sound w env host (some label) {kind} e h =
    let same_kind : handle_kind label ≡ kind = cc in
    rw (← same_kind) (handle_kind_sound w env label host (strip_suffix_sound _ host e))
under_apex_sound w env host none e h =
    claim_read_sound w env host (w.get_custom_domain_by_hostname host) refl h

-- A host counts as a handle's only if it is one well-formed label under the apex, and as a custom
-- domain only if the claim that the database holds for that very hostname is live; a claim that is
-- pending or disconnected is told apart from both.
pub resolve_host_sound :
    (w : World) (env : Env) (hostname : Text) (host : HostKind)
    → resolve_host w env hostname ≡ got host
    → IsResolved w env (to_lower hostname) host
unfolding resolve_host
resolve_host_sound w env hostname host e =
    elim (Bool-cases (is_apex_host env (to_lower hostname))) [
      | inl h ↦ let same_kind : apex ≡ host = ground (arith, e) in rw (← same_kind) tt
      | inr h ↦ under_apex_sound w env (to_lower hostname) _ refl (ground (arith, e))
    ]
