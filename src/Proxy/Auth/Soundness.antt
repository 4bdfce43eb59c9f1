-- ===== src/Proxy/Auth/Soundness.antt =====
-- What an accepted cookie, token or grant of auth.ts proves.
use htmlradar.Common.{
  ℕ, ◌≤◌, ◌≡◌, refl, sym, ap, ◌∙◌, Text, List, [], ◌∷◌, ◌++◌, All, Lacks, split, Option, some, none,
  ◌↔◌, same, same_iff, guard, >>=-eq-some, Bool, true, is_some,
}
use mathlib.Core.Path.{subst}
use htmlradar.Common.Decimal.{number, parse_int}
use htmlradar.Proxy.Auth.{
  Platform, cookie, constant_time_equal, hmac, hmac_hex, pwd_prefix, email_prefix, auth_message,
  email_message, owner_preview_message, owner_doc_message, opt_out_message, print_message,
  VerifiedAuth, VerifiedEmail, verify_auth_cookie, verify_email_cookie, base64url_decode,
  verify_owner_preview_token, verify_owner_doc_preview_token, verify_opt_out_token, nonempty,
  verify_print_grant, token_expiry, stamp_expiry, read_print_cookie, three_parts, four_parts,
  two_parts, live_expiry,
}
use htmlradar.Proxy.Auth.Compare.{constant_time_equal_iff}
use htmlradar.Proxy.Auth.Parts.{
  two_of_split, three_of_split, four_of_split, split_two, split_three, split_four, live_expiry_iff,
}

guard-eq-some : (b : Bool) {u : Unit {0}} → guard b ≡ some u → b ≡ true
guard-eq-some true e = refl
guard-eq-some _ e = cc

nonempty-eq-some : (o : Option Text) {s : Text} → nonempty o ≡ some s → o ≡ some s
nonempty-eq-some none e = cc
nonempty-eq-some (some []) e = cc
nonempty-eq-some (some (c ∷ s)) e = e

some_inj : {A : Type 0} (a b : A) → some a ≡ some b → a ≡ b
some_inj a b e = cc

is_some-eq-true : {A : Type 0} (o : Option A) → is_some o ≡ true → (a : A) × (o ≡ some a)
is_some-eq-true none e = cc
is_some-eq-true (some a) e = (a, refl)

nonempty_cut :
    (o : Option Text) {token : Text} (s : Text) (c : ℕ) (t : Text)
    → token ≡ s ++ c ∷ t
    → o ≡ some token
    → nonempty o ≡ some token
nonempty_cut o [] c t e h = rw (h, e) refl
nonempty_cut o (d ∷ s) c t e h = rw (h, e) refl

module _ (p : Platform) (secret : Text) (now : ℕ) where
  -- A token `{subject}.{expiry}.{mac}` whose mac signs `message` at the expiry.
  pub record IsSealed (message : ℕ → Text) (subject token : Text) (expires_at : ℕ) : Type 0 where
    pub expiry : Text
    pub laid_out : token ≡ subject ++ b'.' ∷ (expiry ++ b'.' ∷ hmac p (message expires_at) secret)
    pub parts : All (Lacks b'.') (subject ∷ expiry ∷ hmac p (message expires_at) secret ∷ [])
    pub reads : parse_int expiry ≡ number expires_at
    pub fresh : now ≤ expires_at

  IsSealed-sound :
      (message : ℕ → Text) (subject token : Text) {n : ℕ}
      → token_expiry p message token subject secret now ≡ some n
      → IsSealed message subject token n
  unfolding token_expiry
  IsSealed-sound message subject token {n} e =
      let ((s, x, mac), cut, e1) = >>=-eq-some (three_parts (split b'.' token)) _ e in
      let (_, subject_ok, e2) = >>=-eq-some (guard (same s subject)) _ e1 in
      let (m, expiry_ok, e3) = >>=-eq-some (live_expiry (parse_int x) now) _ e2 in
      let (_, mac_ok, e4) =
        >>=-eq-some (guard (constant_time_equal mac (hmac p (message m) secret))) _ e3 in
      let same_n : m ≡ n = cc in
      let same_s = (same_iff s subject).0 (guard-eq-some _ subject_ok) in
      let same_mac : mac ≡ hmac p (message n) secret =
        (constant_time_equal_iff _ _).0 (guard-eq-some _ mac_ok)
        ∙ ap (λ k. hmac p (message k) secret) same_n in
      let (laid_out, parts) = three_of_split b'.' token cut in
      let (number_ok, fresh) = (live_expiry_iff _ now m).0 expiry_ok in
      record {
        expiry = x;
        laid_out = rw (← same_mac, ← same_s) laid_out;
        parts = rw (← same_mac, ← same_s) parts;
        reads = number_ok ∙ ap number same_n;
        fresh = rw (← same_n) fresh;
      }

  sealed_complete :
      (message : ℕ → Text) (subject token : Text) (n : ℕ)
      → IsSealed message subject token n
      → token_expiry p message token subject secret now ≡ some n
  unfolding token_expiry
  sealed_complete message subject token n s =
      let (p1, (p2, (p3, _))) = s.parts in
      let mac = hmac p (message n) secret in
      rw (
        s.laid_out,
        split_three b'.' subject s.expiry mac p1 p2 p3,
        (same_iff subject subject).1 refl,
        (live_expiry_iff (parse_int s.expiry) now n).1 (s.reads, s.fresh),
        (constant_time_equal_iff mac mac).1 refl,
      )

  -- A stamp `{expiry}.{hex mac}` whose mac signs `message` at the expiry.
  pub record IsStamped (message : ℕ → Text) (token : Text) (expires_at : ℕ) : Type 0 where
    pub expiry : Text
    pub laid_out : token ≡ expiry ++ b'.' ∷ hmac_hex p (message expires_at) secret
    pub parts : All (Lacks b'.') (expiry ∷ hmac_hex p (message expires_at) secret ∷ [])
    pub reads : parse_int expiry ≡ number expires_at
    pub fresh : now ≤ expires_at

  IsStamped-sound :
      (message : ℕ → Text) (token : Text) {n : ℕ}
      → stamp_expiry p message token secret now ≡ some n
      → IsStamped message token n
  unfolding stamp_expiry
  IsStamped-sound message token {n} e =
      let ((x, mac), cut, e1) = >>=-eq-some (two_parts (split b'.' token)) _ e in
      let (m, expiry_ok, e2) = >>=-eq-some (live_expiry (parse_int x) now) _ e1 in
      let (_, mac_ok, e3) =
        >>=-eq-some (guard (constant_time_equal mac (hmac_hex p (message m) secret))) _ e2 in
      let same_n : m ≡ n = cc in
      let same_mac : mac ≡ hmac_hex p (message n) secret =
        (constant_time_equal_iff _ _).0 (guard-eq-some _ mac_ok)
        ∙ ap (λ k. hmac_hex p (message k) secret) same_n in
      let (laid_out, parts) = two_of_split b'.' token cut in
      let (number_ok, fresh) = (live_expiry_iff _ now m).0 expiry_ok in
      record {
        expiry = x;
        laid_out = rw (← same_mac) laid_out;
        parts = rw (← same_mac) parts;
        reads = number_ok ∙ ap number same_n;
        fresh = rw (← same_n) fresh;
      }

  stamped_complete :
      (message : ℕ → Text) (token : Text) (n : ℕ)
      → IsStamped message token n
      → stamp_expiry p message token secret now ≡ some n
  unfolding stamp_expiry
  stamped_complete message token n s =
      let (p1, (p2, _)) = s.parts in
      let mac = hmac_hex p (message n) secret in
      rw (
        s.laid_out,
        split_two b'.' s.expiry mac p1 p2,
        (live_expiry_iff (parse_int s.expiry) now n).1 (s.reads, s.fresh),
        (constant_time_equal_iff mac mac).1 refl,
      )

  -- An email cookie `{slug}.{b64 email}.{expiry}.{mac}`.
  pub record IsEmailSealed (slug token address : Text) (expires_at : ℕ) : Type 0 where
    pub expiry : Text
    pub b64email : Text
    pub bytes : List ℕ
    pub decoded : base64url_decode p b64email ≡ some bytes
    pub named : p.decode bytes ≡ address
    pub laid_out :
        token
        ≡ slug
          ++ b'.'
            ∷ (b64email
                ++ b'.' ∷ (expiry ++ b'.' ∷ hmac p (email_message slug address expires_at) secret))
    pub parts :
        All
          (Lacks b'.')
          (slug ∷ b64email ∷ expiry ∷ hmac p (email_message slug address expires_at) secret ∷ [])
    pub reads : parse_int expiry ≡ number expires_at
    pub fresh : now ≤ expires_at

  email_sealed :
      (slug s token b64 x mac address : Text) (bytes : List ℕ) (m : ℕ)
      → four_parts (split b'.' token) ≡ some (s, b64, x, mac)
      → s ≡ slug
      → live_expiry (parse_int x) now ≡ some m
      → base64url_decode p b64 ≡ some bytes
      → p.decode bytes ≡ address
      → mac ≡ hmac p (email_message slug address m) secret
      → IsEmailSealed slug token address m
  email_sealed slug s token b64 x mac address bytes m cut same_s expiry_ok decoded named same_mac =
      let (laid_out, parts) = four_of_split b'.' token cut in
      let (number_ok, fresh) = (live_expiry_iff _ now m).0 expiry_ok in
      record {
        expiry = x;
        b64email = b64;
        bytes = bytes;
        decoded = decoded;
        named = named;
        laid_out = rw (← same_mac, ← same_s) laid_out;
        parts = rw (← same_mac, ← same_s) parts;
        reads = number_ok;
        fresh = fresh;
      }

  email_sound :
      (slug header : Text) (v : VerifiedEmail)
      → verify_email_cookie p (some header) slug secret now ≡ some v
      → (token : Text) × (cookie header (email_prefix ++ slug) ≡ some token)
        × IsEmailSealed slug token v.email v.expires_at
        × (v.slug ≡ slug)
  unfolding verify_email_cookie
  email_sound slug header v e =
      let (token, found, e0) = >>=-eq-some (nonempty (cookie header (email_prefix ++ slug))) _ e in
      let ((s, b64, x, mac), cut, e1) = >>=-eq-some (four_parts (split b'.' token)) _ e0 in
      let (_, slug_ok, e2) = >>=-eq-some (guard (same s slug)) _ e1 in
      let (m, expiry_ok, e3) = >>=-eq-some (live_expiry (parse_int x) now) _ e2 in
      let (bytes, decoded, e4) = >>=-eq-some (base64url_decode p b64) _ e3 in
      let signature = hmac p (email_message slug (p.decode bytes) m) secret in
      let (_, mac_ok, e5) = >>=-eq-some (guard (constant_time_equal mac signature)) _ e4 in
      let made : VerifiedEmail = record { slug = slug; email = p.decode bytes; expires_at = m } in
      let sealed =
        email_sealed slug s token b64 x mac (p.decode bytes) bytes m cut
          ((same_iff s slug).0 (guard-eq-some _ slug_ok)) expiry_ok decoded refl
          ((constant_time_equal_iff mac signature).0 (guard-eq-some _ mac_ok)) in
      subst
        (λ w.
          (t : Text) × (cookie header (email_prefix ++ slug) ≡ some t)
          × IsEmailSealed slug t w.email w.expires_at
          × (w.slug ≡ slug))
        (some_inj made v e5) (token, nonempty-eq-some _ found, sealed, refl)

  email_complete :
      (slug header token : Text) (v : VerifiedEmail)
      → cookie header (email_prefix ++ slug) ≡ some token
      → IsEmailSealed slug token v.email v.expires_at
      → v.slug ≡ slug
      → verify_email_cookie p (some header) slug secret now ≡ some v
  unfolding verify_email_cookie
  email_complete slug header token v found s same_slug =
      let (p1, (p2, (p3, (p4, _)))) = s.parts in
      let mac = hmac p (email_message slug v.email v.expires_at) secret in
      rw
        (
          nonempty_cut _ slug _ _ s.laid_out found,
          s.laid_out,
          split_four b'.' slug s.b64email s.expiry mac p1 p2 p3 p4,
          (same_iff slug slug).1 refl,
          (live_expiry_iff (parse_int s.expiry) now v.expires_at).1 (s.reads, s.fresh),
          s.decoded,
          s.named,
          (constant_time_equal_iff mac mac).1 refl,
        )
        (λ i. some (record { slug = sym same_slug i; email = v.email; expires_at = v.expires_at }))

  seal_sound :
      (slug header : Text) (v : VerifiedAuth)
      → verify_auth_cookie p (some header) slug secret now ≡ some v
      → (token : Text) × (cookie header (pwd_prefix ++ slug) ≡ some token)
        × IsSealed (auth_message slug) slug token v.expires_at
        × (v.slug ≡ slug)
  unfolding verify_auth_cookie
  seal_sound slug header v e =
      let (token, found, e1) = >>=-eq-some (nonempty (cookie header (pwd_prefix ++ slug))) _ e in
      let (n, sealed, e2) =
        >>=-eq-some (token_expiry p (auth_message slug) token slug secret now) _ e1 in
      let made : VerifiedAuth = record { slug = slug; expires_at = n } in
      subst
        (λ w.
          (t : Text) × (cookie header (pwd_prefix ++ slug) ≡ some t)
          × IsSealed (auth_message slug) slug t w.expires_at
          × (w.slug ≡ slug))
        (some_inj made v e2)
        (
          token,
          nonempty-eq-some _ found,
          IsSealed-sound (auth_message slug) slug token sealed,
          refl,
        )

  seal_complete :
      (slug header token : Text) (v : VerifiedAuth)
      → cookie header (pwd_prefix ++ slug) ≡ some token
      → IsSealed (auth_message slug) slug token v.expires_at
      → v.slug ≡ slug
      → verify_auth_cookie p (some header) slug secret now ≡ some v
  unfolding verify_auth_cookie
  seal_complete slug header token v found s same_slug =
      rw
        (
          nonempty_cut _ slug _ _ s.laid_out found,
          sealed_complete (auth_message slug) slug token v.expires_at s,
        )
        (λ i. some (record { slug = sym same_slug i; expires_at = v.expires_at }))

  preview_iff :
      (message : ℕ → Text) (subject token : Text)
      → (is_some (token_expiry p message token subject secret now) ≡ true)
        ↔ ((n : ℕ) × IsSealed message subject token n)
  preview_iff message subject token = (
    λ e. let (n, h) = is_some-eq-true _ e in (n, IsSealed-sound message subject token h),
    λ (n, s). rw (sealed_complete message subject token n s),
  )

  stamp_iff :
      (message : ℕ → Text) (token : Text)
      → (is_some (stamp_expiry p message token secret now) ≡ true)
        ↔ ((n : ℕ) × IsStamped message token n)
  stamp_iff message token = (
    λ e. let (n, h) = is_some-eq-true _ e in (n, IsStamped-sound message token h),
    λ (n, s). rw (stamped_complete message token n s),
  )

-- The password gate opens for a cookie header exactly when the share's own cookie in it reads
-- `{slug}.{expiry}.{mac}`, with the signature of this slug and expiry, and the expiry is not past.
pub verify_auth_cookie_iff :
    (p : Platform) (header slug secret : Text) (now : ℕ) (v : VerifiedAuth)
    → (verify_auth_cookie p (some header) slug secret now ≡ some v) ↔ (
        (token : Text) × (cookie header (pwd_prefix ++ slug) ≡ some token)
        × IsSealed p secret now (auth_message slug) slug token v.expires_at
        × (v.slug ≡ slug))
verify_auth_cookie_iff p header slug secret now v = (
  seal_sound p secret now slug header v,
  λ (token, found, s, e). seal_complete p secret now slug header token v found s e,
)

-- The email gate opens exactly when the share's own cookie reads
-- `{slug}.{base64 email}.{expiry}.{mac}`, with the signature of this slug, the decoded address and
-- the expiry, and the expiry is not past. The address is the one that was signed.
pub verify_email_cookie_iff :
    (p : Platform) (header slug secret : Text) (now : ℕ) (v : VerifiedEmail)
    → (verify_email_cookie p (some header) slug secret now ≡ some v) ↔ (
        (token : Text) × (cookie header (email_prefix ++ slug) ≡ some token)
        × IsEmailSealed p secret now slug token v.email v.expires_at
        × (v.slug ≡ slug))
verify_email_cookie_iff p header slug secret now v = (
  email_sound p secret now slug header v,
  λ (token, found, s, e). email_complete p secret now slug header token v found s e,
)

-- Both preview tokens are accepted exactly when they read `{subject}.{expiry}.{mac}` for the slug or
-- the document at hand, with the signature over the message of their own kind, and are not past.
pub verify_preview_iff :
    (p : Platform) (token subject secret : Text) (now : ℕ)
    → ((verify_owner_preview_token p (some token) subject secret now ≡ true)
        ↔ ((n : ℕ) × IsSealed p secret now (owner_preview_message subject) subject token n))
      × ((verify_owner_doc_preview_token p (some token) subject secret now ≡ true)
          ↔ ((n : ℕ) × IsSealed p secret now (owner_doc_message subject) subject token n))
unfolding verify_owner_preview_token verify_owner_doc_preview_token
verify_preview_iff p token subject secret now = (
  preview_iff p secret now (owner_preview_message subject) subject token,
  preview_iff p secret now (owner_doc_message subject) subject token,
)

-- An opt-out token is accepted exactly when it is a live stamp over this choice, slug and hostname.
-- A print grant is accepted exactly when the request holds a well-formed print cookie and the grant
-- is a live stamp over this slug, this hostname and that cookie.
pub verify_stamp_iff :
    (p : Platform) (token optout slug hostname secret : Text) (header : Option Text) (now : ℕ)
    → ((verify_opt_out_token p token optout slug hostname secret now ≡ true)
        ↔ ((n : ℕ) × IsStamped p secret now (opt_out_message optout slug hostname) token n))
      × ((verify_print_grant p (some token) slug hostname header secret now ≡ true) ↔ (
          (bound : Text) × (read_print_cookie header ≡ some bound)
          × ((n : ℕ) × IsStamped p secret now (print_message slug hostname bound) token n)))
unfolding verify_opt_out_token verify_print_grant
verify_stamp_iff p token optout slug hostname secret header now = (
  stamp_iff p secret now (opt_out_message optout slug hostname) token,
  (
    λ e.
        let (n, h) = is_some-eq-true _ e in
        let (bound, found, stamped) = >>=-eq-some (read_print_cookie header) _ h in
        (
          bound,
          found,
          (n, IsStamped-sound p secret now (print_message slug hostname bound) token stamped),
        ),
    λ (bound, found, (n, s)).
        rw (found, stamped_complete p secret now (print_message slug hostname bound) token n s),
  ),
)
