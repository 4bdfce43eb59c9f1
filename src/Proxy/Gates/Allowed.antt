-- ===== src/Proxy/Gates/Allowed.antt =====
-- Whom a share's allow-list admits.
use htmlradar.Common.{
  if◌then◌else◌, ◌≡◌, refl, Text, List, [], ◌∷◌, ◌++◌, some, Bool, true, false, ◌&&◌, ◌||◌, ◌↔◌,
  ◌⊎◌, inl, inr, arith, Listed, includes, includes_iff, Lacks, split, split-Lacks, split-append,
  Bool-cases,
}
use htmlradar.Proxy.World.{Share}
use htmlradar.Proxy.Gates.{is_email_allowed, domain_part, listed, is_empty}

address-split :
    (local domain : Text)
    → Lacks b'@' local
    → Lacks b'@' domain
    → domain_part (split b'@' (local ++ b'@' ∷ domain)) ≡ some domain
unfolding domain_part
address-split local domain h k =
    rw (split-append b'@' local domain h, split-Lacks b'@' domain k) refl

either : (a b : Bool) → a ≡ false → (a || b) ≡ true → b ≡ true
either a b h e = ground arith

none_listed : (s : Text) → includes [] s ≡ false
unfolding includes
none_listed s = refl

lists_iff :
    (emails domains : List Text) (email domain : Text)
    → ((if is_empty emails && is_empty domains
          then true
          else includes emails email || includes domains domain)
        ≡ true)
      ↔ ((emails ≡ []) × (domains ≡ []) ⊎ Listed email emails ⊎ Listed domain domains)
lists_iff [] [] email domain = (λ e. inl (refl, refl), λ h. refl)
lists_iff [] (d ∷ ds) email domain = (
  λ e.
      inr (
        inr
          ((includes_iff (d ∷ ds) domain).0 (either (includes [] email) _ (none_listed email) e))),
  λ h. ground (arith, includes_iff (d ∷ ds) domain, h),
)
lists_iff (t ∷ ts) ds email domain = (
  λ e. elim (Bool-cases (includes (t ∷ ts) email)) [
    | inl h ↦ inr (inl ((includes_iff (t ∷ ts) email).0 h))
    | inr h ↦ inr (inr ((includes_iff ds domain).0 (either _ _ h e)))
  ],
  λ h. some_listed h,
)
  where
    some_listed :
        ((t ∷ ts ≡ []) × (ds ≡ []) ⊎ Listed email (t ∷ ts) ⊎ Listed domain ds)
        → (includes (t ∷ ts) email || includes ds domain) ≡ true
    some_listed (inl (e, _)) = cc
    some_listed (inr (inl h)) = rw ((includes_iff (t ∷ ts) email).1 h) refl
    some_listed (inr (inr h)) = rw ((includes_iff ds domain).1 h) (ground arith)

-- A share whose lists are both empty admits every address; any other share admits an address
-- exactly when the address is on the one list or its domain is on the other.
pub is_email_allowed_iff :
    (share : Share) (local domain : Text)
    → Lacks b'@' local
    → Lacks b'@' domain
    → (is_email_allowed share (local ++ b'@' ∷ domain) ≡ true) ↔ (
        (listed share.allowed_emails ≡ []) × (listed share.allowed_email_domains ≡ [])
        ⊎ Listed (local ++ b'@' ∷ domain) (listed share.allowed_emails)
        ⊎ Listed domain (listed share.allowed_email_domains))
unfolding is_email_allowed
is_email_allowed_iff share local domain h k =
    rw (address-split local domain h k) (lists_iff _ _ _ _)
