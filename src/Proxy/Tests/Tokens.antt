-- ===== src/Proxy/Tests/Tokens.antt =====
-- The cookies and tokens of one share.
use htmlradar.Common.{
  ℕ, ◌≡◌, ◌↔◌, refl, Text, codes, some, List, [], ◌∷◌, ◌++◌, All, arith, inl, inr, true, split,
  same, trim_start,
}
use htmlradar.Common.Decimal.{to_dec}
use htmlradar.Proxy.Auth.{
  issue_auth_cookie, verify_auth_cookie, issue_email_cookie, verify_email_cookie,
  issue_owner_preview_token, verify_owner_preview_token, issue_opt_out_token, verify_opt_out_token,
  issue_print_grant, verify_print_grant, read_print_cookie, cookie, hmac, hmac_bytes,
  base64url_encode, base64url_decode, auth_message, email_message, owner_preview_message,
  owner_doc_message, opt_out_message, print_message, latest, pwd_prefix, email_prefix,
  verify_owner_doc_preview_token,
}
use htmlradar.Proxy.Auth.Messages.{opt_out, IsSent, IsWord, message_injective}
use htmlradar.Proxy.Auth.Base64.{base64url_decode-encode, IsPlain}
use htmlradar.Proxy.Auth.Soundness.{
  IsSealed, IsStamped, IsEmailSealed, verify_auth_cookie_iff, verify_email_cookie_iff,
  verify_preview_iff, verify_stamp_iff,
}
use htmlradar.Proxy.Auth.RoundTrip.{verify-issue_tokens}
use htmlradar.Proxy.Auth.Header.{IsCookie, render, cookie-render}
use htmlradar.Proxy.Tests.{toy, toy-IsBase64Standard, toy-IsSigner}

abbrev pub deck : Text
deck = codes "q3"

abbrev pub key : Text
key = codes "k"

abbrev pub reader : Text
reader = codes "a@b.co"

-- The `Cookie` header of a reader who passed both gates at second 5, and who may print.
abbrev print_secret : Text
print_secret = codes "0123456789abcdef0123456789abcdef"

abbrev pub jar : List (Text × Text)
jar =
    (pwd_prefix ++ deck, (issue_auth_cookie toy deck key 5).value)
    ∷ (email_prefix ++ deck, (issue_email_cookie toy deck reader key 5).value)
    ∷ (codes "hr_print", print_secret)
    ∷ []

abbrev pub header : Text
header = render jar

jar_read :
    (cookie header (pwd_prefix ++ deck) ≡ some (issue_auth_cookie toy deck key 5).value)
    × (cookie header (email_prefix ++ deck) ≡ some (issue_email_cookie toy deck reader key 5).value)
    × (read_print_cookie (some header) ≡ some print_secret)
unfolding cookie issue_auth_cookie issue_email_cookie read_print_cookie to_dec hmac hmac_bytes
    base64url_encode auth_message email_message split trim_start same latest
jar_read = (refl, refl, refl)

pub deck_words : All IsWord deck
deck_words =
    (inr (inr (inl (omega arith, omega arith))), (inr (inl (omega arith, omega arith)), tt))

pub reader-IsPlain : All IsPlain reader
reader-IsPlain = (
  inl (omega arith),
  (
    inl (omega arith),
    (inl (omega arith), (inl (omega arith), (inl (omega arith), (inl (omega arith), tt)))),
  ),
)

base64url_decode-encode_example :
    base64url_decode toy (base64url_encode toy (200 ∷ 7 ∷ [])) ≡ some (200 ∷ 7 ∷ [])
base64url_decode-encode_example =
    base64url_decode-encode toy toy-IsBase64Standard (200 ∷ 7 ∷ []) (omega arith, (omega arith, tt))

message_injective_example :
    opt_out (codes "1") deck (codes "htmlradar.com") 9
    ≡ opt_out (codes "1") deck (codes "htmlradar.com") 9
message_injective_example =
    message_injective (opt_out (codes "1") deck (codes "htmlradar.com") 9)
      (opt_out (codes "1") deck (codes "htmlradar.com") 9) choice_sent choice_sent refl
  where
    choice_sent : IsSent (opt_out (codes "1") deck (codes "htmlradar.com") 9)
    choice_sent = (inl refl, deck_words, omega arith)

verify_auth_cookie_iff_example :
    (verify_auth_cookie toy (some header) deck key 60
      ≡ some (record { slug = deck; expires_at = 86405 }))
    ↔ ((token : Text) × (cookie header (pwd_prefix ++ deck) ≡ some token)
        × IsSealed toy key 60 (auth_message deck) deck token 86405
        × (deck ≡ deck))
verify_auth_cookie_iff_example =
    verify_auth_cookie_iff toy header deck key 60 (record { slug = deck; expires_at = 86405 })

verify_email_cookie_iff_example :
    (verify_email_cookie toy (some header) deck key 60
      ≡ some (record { slug = deck; email = reader; expires_at = 86405 }))
    ↔ ((token : Text) × (cookie header (email_prefix ++ deck) ≡ some token)
        × IsEmailSealed toy key 60 deck token reader 86405
        × (deck ≡ deck))
verify_email_cookie_iff_example =
    verify_email_cookie_iff toy header deck key 60
      (record { slug = deck; email = reader; expires_at = 86405 })

abbrev owner_token : Text
owner_token = issue_owner_preview_token toy deck key 5

verify_preview_iff_example :
    ((verify_owner_preview_token toy (some owner_token) deck key 60 ≡ true)
      ↔ ((n : ℕ) × IsSealed toy key 60 (owner_preview_message deck) deck owner_token n))
    × ((verify_owner_doc_preview_token toy (some owner_token) deck key 60 ≡ true)
        ↔ ((n : ℕ) × IsSealed toy key 60 (owner_doc_message deck) deck owner_token n))
verify_preview_iff_example = verify_preview_iff toy owner_token deck key 60

abbrev grant : Text
grant = issue_print_grant toy deck (codes "htmlradar.com") print_secret key 5

verify_stamp_iff_example :
    ((verify_opt_out_token toy grant (codes "1") deck (codes "htmlradar.com") key 60 ≡ true) ↔ (
      (n : ℕ) × IsStamped toy key 60
        (opt_out_message (codes "1") deck (codes "htmlradar.com"))
        grant
        n))
    × ((verify_print_grant toy (some grant) deck (codes "htmlradar.com") (some header) key 60
          ≡ true)
        ↔ ((bound : Text) × (read_print_cookie (some header) ≡ some bound)
            × ((n : ℕ) × IsStamped toy key 60
                  (print_message deck (codes "htmlradar.com") bound)
                  grant
                  n)))
verify_stamp_iff_example =
    verify_stamp_iff toy grant (codes "1") deck (codes "htmlradar.com") key (some header) 60

verify-issue_tokens_example :
    (verify_owner_preview_token toy (some owner_token) deck key 60 ≡ true)
    × (verify_opt_out_token toy
          (issue_opt_out_token toy (codes "1") deck (codes "htmlradar.com") key 5)
          (codes "1")
          deck
          (codes "htmlradar.com")
          key
          60
        ≡ true)
    × (verify_print_grant toy (some grant) deck (codes "htmlradar.com") (some header) key 60 ≡ true)
verify-issue_tokens_example =
    verify-issue_tokens toy deck (codes "1") (codes "htmlradar.com") print_secret key (some header)
      5 60 toy-IsBase64Standard toy-IsSigner deck_words (omega arith) jar_read.2

abbrev two_cookies : List (Text × Text)
two_cookies = (codes "a", codes "1") ∷ (codes "b", codes "2") ∷ (codes "a", codes "3") ∷ []

two_cookies-IsCookie : All IsCookie two_cookies
two_cookies-IsCookie = (
  (refl, omega arith, omega arith, omega arith),
  (
    (refl, omega arith, omega arith, omega arith),
    ((refl, omega arith, omega arith, omega arith), tt),
  ),
)

cookie-render_example : cookie (render two_cookies) (codes "a") ≡ some (codes "3")
unfolding latest same
cookie-render_example = cookie-render two_cookies (codes "a") two_cookies-IsCookie
