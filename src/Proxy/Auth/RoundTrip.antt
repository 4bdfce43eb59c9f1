-- ===== src/Proxy/Auth/RoundTrip.antt =====
-- A cookie, token or grant that auth.ts has issued is accepted for as long as it lives.
use htmlradar.Common.{
  ℕ, ◌+◌, ◌≤◌, ◌≡◌, ◌≢◌, refl, Text, ◌∷◌, ◌++◌, All, All-impl, Lacks, arith, Option, some, none,
  true,
}
use htmlradar.Common.Decimal.{to_dec, to_dec-Lacks, parse_int-to_dec}
use htmlradar.Proxy.Auth.{
  Platform, cookie, hmac, hmac_hex, hmac_bytes, base64url_encode, ttl_seconds,
  owner_preview_ttl_seconds, issue_auth_cookie, verify_auth_cookie, issue_email_cookie,
  verify_email_cookie, issue_owner_preview_token, verify_owner_preview_token, issue_opt_out_token,
  verify_opt_out_token, issue_print_grant, verify_print_grant, read_print_cookie, auth_message,
  email_message, owner_preview_message, opt_out_message, print_message, VerifiedEmail,
}
use htmlradar.Proxy.Auth.Base64.{
  IsBase64Standard, IsSigner, IsUtf8, IsPlain, HasNoMark, base64url-Lacks_dot,
  base64url_decode-encode, to_hex-Lacks_dot,
}
use htmlradar.Proxy.Auth.Messages.{IsWord}
use htmlradar.Proxy.Auth.Soundness.{
  IsSealed, IsStamped, verify_auth_cookie_iff, verify_email_cookie_iff, verify_preview_iff,
  verify_stamp_iff,
}

word-Lacks_dot : (s : Text) → All IsWord s → Lacks b'.' s
word-Lacks_dot s = All-impl IsWord (λ c. c ≢ b'.') s (λ c w e. dot_no_word (rw e at w))
  where
    dot_no_word : ¬ IsWord b'.'
    dot_no_word w = grind arith

dec-Lacks_dot : (n : ℕ) → Lacks b'.' (to_dec n)
dec-Lacks_dot n = to_dec-Lacks b'.' n (λ h. omega arith)

module _ (p : Platform) (std : IsBase64Standard p) (signer : IsSigner p) (secret : Text) where
  hmac-Lacks_dot : (message : Text) → Lacks b'.' (hmac p message secret)
  unfolding hmac hmac_bytes
  hmac-Lacks_dot message =
      base64url-Lacks_dot p std (hmac_bytes p message secret) (signer.sign_bytes _ _)

  hmac_hex-Lacks_dot : (message : Text) → Lacks b'.' (hmac_hex p message secret)
  unfolding hmac_hex
  hmac_hex-Lacks_dot message = to_hex-Lacks_dot (hmac_bytes p message secret)

  IsSealed-now :
      (message : ℕ → Text) (subject : Text) (n later : ℕ)
      → All IsWord subject
      → later ≤ n
      → IsSealed p secret later message subject
          (subject ++ b'.' ∷ (to_dec n ++ b'.' ∷ hmac p (message n) secret))
          n
  IsSealed-now message subject n later w h = record {
    expiry = to_dec n;
    laid_out = refl;
    parts = (word-Lacks_dot subject w, (dec-Lacks_dot n, (hmac-Lacks_dot (message n), tt)));
    reads = parse_int-to_dec n;
    fresh = h;
  }

  IsStamped-now :
      (message : ℕ → Text) (n later : ℕ)
      → later ≤ n
      → IsStamped p secret later message (to_dec n ++ b'.' ∷ hmac_hex p (message n) secret) n
  IsStamped-now message n later h = record {
    expiry = to_dec n;
    laid_out = refl;
    parts = (dec-Lacks_dot n, (hmac_hex-Lacks_dot (message n), tt));
    reads = parse_int-to_dec n;
    fresh = h;
  }

-- Whoever has passed the password gate passes it again, with the cookie that it set, for the next
-- twenty-four hours; the slug is one that a route can hold.
pub verify-issue_auth_cookie :
    (p : Platform) (slug secret header : Text) (now later : ℕ)
    → IsBase64Standard p
    → IsSigner p
    → All IsWord slug
    → later ≤ now + ttl_seconds
    → cookie header (issue_auth_cookie p slug secret now).name
      ≡ some (issue_auth_cookie p slug secret now).value
    → verify_auth_cookie p (some header) slug secret later
      ≡ some (record { slug = slug; expires_at = now + ttl_seconds })
unfolding issue_auth_cookie
verify-issue_auth_cookie p slug secret header now later std signer w h found =
    let n = now + ttl_seconds in
    (verify_auth_cookie_iff p header slug secret later (record { slug = slug; expires_at = n })).1
      (_, found, IsSealed-now p std signer secret (auth_message slug) slug n later w h, refl)

-- The same for the email gate, and the address that it hands on is the one that was typed.
pub verify-issue_email_cookie :
    (p : Platform) (slug email secret header : Text) (now later : ℕ)
    → IsBase64Standard p
    → IsSigner p
    → IsUtf8 p
    → All IsWord slug
    → All IsPlain email
    → HasNoMark email
    → later ≤ now + ttl_seconds
    → cookie header (issue_email_cookie p slug email secret now).name
      ≡ some (issue_email_cookie p slug email secret now).value
    → verify_email_cookie p (some header) slug secret later
      ≡ some (record { slug = slug; email = email; expires_at = now + ttl_seconds })
unfolding issue_email_cookie
verify-issue_email_cookie p slug email secret header now later std signer utf8 w plain bare h
      found =
    let n = now + ttl_seconds in
    let made : VerifiedEmail = record { slug = slug; email = email; expires_at = n } in
    let b64 = base64url_encode p (p.encode email) in
    (verify_email_cookie_iff p header slug secret later made).1 (
      _,
      found,
      record {
        expiry = to_dec n;
        b64email = b64;
        bytes = p.encode email;
        decoded = base64url_decode-encode p std (p.encode email) (utf8.encode_bytes email);
        named = utf8.decode-encode email plain bare;
        laid_out = refl;
        parts = (
          word-Lacks_dot slug w,
          (
            base64url-Lacks_dot p std (p.encode email) (utf8.encode_bytes email),
            (
              dec-Lacks_dot n,
              (hmac-Lacks_dot p std signer secret (email_message slug email n), tt),
            ),
          ),
        );
        reads = parse_int-to_dec n;
        fresh = h;
      },
      refl,
    )

-- On a platform whose base64 keeps the standard and whose signatures are bytes, for a slug that a route
-- can hold: an owner's preview token, an opt-out token and a print grant are accepted for ten minutes,
-- for the share, the choice, the hostname and the print cookie that they were issued for.
pub verify-issue_tokens :
    (p : Platform) (slug optout hostname bound secret : Text) (header : Option Text) (now later : ℕ)
    → IsBase64Standard p
    → IsSigner p
    → All IsWord slug
    → later ≤ now + owner_preview_ttl_seconds
    → read_print_cookie header ≡ some bound
    → (verify_owner_preview_token p
          (some (issue_owner_preview_token p slug secret now))
          slug
          secret
          later
        ≡ true)
      × (verify_opt_out_token p
            (issue_opt_out_token p optout slug hostname secret now)
            optout
            slug
            hostname
            secret
            later
          ≡ true)
      × (verify_print_grant p
            (some (issue_print_grant p slug hostname bound secret now))
            slug
            hostname
            header
            secret
            later
          ≡ true)
unfolding issue_owner_preview_token issue_opt_out_token issue_print_grant
verify-issue_tokens p slug optout hostname bound secret header now later std signer w h found =
    let n = now + owner_preview_ttl_seconds in
    (
      (verify_preview_iff p _ slug secret later).0.1
          (n, IsSealed-now p std signer secret (owner_preview_message slug) slug n later w h),
      (verify_stamp_iff p _ optout slug hostname secret none later).0.1
          (n, IsStamped-now p std signer secret (opt_out_message optout slug hostname) n later h),
      (verify_stamp_iff p _ optout slug hostname secret header later).1.1 (
        bound,
        found,
        (n, IsStamped-now p std signer secret (print_message slug hostname bound) n later h),
      ),
    )
