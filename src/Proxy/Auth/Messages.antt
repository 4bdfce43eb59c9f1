-- ===== src/Proxy/Auth/Messages.antt =====
-- The texts that auth.ts signs, and that no two of them coincide.
use htmlradar.Common.{
  ℕ, ◌≤◌, ◌≡◌, ◌≢◌, refl, sym, ap, Text, codes, ◌∷◌, ◌++◌, append_assoc, All, All-impl, Lacks,
  Lacks-ne-cut, cut_unique, to_lower, arith, inl, inr, ◌⊎◌, ◌∙◌,
}
use htmlradar.Common.Decimal.{to_dec, to_dec_injective, to_dec-Lacks}
use htmlradar.Common.Splits.{cut_last_unique, cut_first_ne, cut_last_ne}
use htmlradar.Proxy.Auth.{
  auth_message, email_message, owner_preview_message, owner_doc_message, opt_out_message,
  print_message,
}

-- What is signed, a constructor for each kind of cookie, token and grant.
pub data Signed : Type 0 where
  auth : (slug : Text) (expires_at : ℕ) → Signed
  email : (slug address : Text) (expires_at : ℕ) → Signed
  owner_preview : (slug : Text) (expires_at : ℕ) → Signed
  owner_doc : (doc_id : Text) (expires_at : ℕ) → Signed
  opt_out : (optout slug hostname : Text) (expires_at : ℕ) → Signed
  print : (slug hostname cookie_secret : Text) (expires_at : ℕ) → Signed

abbrev pub message : Signed → Text
message (auth slug exp) = auth_message slug exp
message (email slug address exp) = email_message slug address exp
message (owner_preview slug exp) = owner_preview_message slug exp
message (owner_doc doc_id exp) = owner_doc_message doc_id exp
message (opt_out optout slug hostname exp) = opt_out_message optout slug hostname exp
message (print slug hostname cookie_secret exp) = print_message slug hostname cookie_secret exp

-- A letter, a digit or a hyphen: the characters of slugs, document ids and print secrets, as the
-- route patterns of index.ts and `readPrintCookie` admit them.
abbrev pub IsWord : ℕ → Type 0
IsWord c = (c ≡ b'-') ⊎ (b'0' ≤ c) × (c ≤ b'9') ⊎ (b'a' ≤ c) × (c ≤ b'z') ⊎ (b'A' ≤ c) × (c ≤ b'Z')

-- What the worker signs has this form: words for slugs, ids and secrets, an address with an `@`, a
-- choice `1` or `0`, and a hostname in lower case with no `|`.
abbrev pub IsSent : Signed → Type 0
IsSent (auth slug exp) = All IsWord slug
IsSent (email slug address exp) =
    All IsWord slug × ((l : Text) × (r : Text) × (address ≡ l ++ b'@' ∷ r))
IsSent (owner_preview slug exp) = All IsWord slug
IsSent (owner_doc doc_id exp) = All IsWord doc_id
IsSent (opt_out optout slug hostname exp) =
    ((optout ≡ codes "1") ⊎ (optout ≡ codes "0")) × All IsWord slug × Lacks b'|' hostname
IsSent (print slug hostname cookie_secret exp) =
    All IsWord slug
    × Lacks b'|' hostname
    × (to_lower hostname ≡ hostname)
    × All IsWord cookie_secret

word-Lacks : (c : ℕ) (s : Text) → ¬ IsWord c → All IsWord s → Lacks c s
word-Lacks c s n = All-impl IsWord (λ d. d ≢ c) s (λ d w e. n (rw (← e) w))

colon_no-IsWord : ¬ IsWord b':'
colon_no-IsWord h = grind arith

bar_no-IsWord : ¬ IsWord b'|'
bar_no-IsWord h = grind arith

at_no-IsWord : ¬ IsWord b'@'
at_no-IsWord h = grind arith

dec-no_colon : (n : ℕ) → Lacks b':' (to_dec n)
dec-no_colon n = to_dec-Lacks b':' n (λ h. omega arith)

dec-no_bar : (n : ℕ) → Lacks b'|' (to_dec n)
dec-no_bar n = to_dec-Lacks b'|' n (λ h. omega arith)

-- The layout of a signed text: a head and a tail at the first colon, where the tail is a date, two
-- fields and a date, or fields parted by bars and a date; or the fields of an opt-out choice.
data Tail : Type 0 where
  date : ℕ → Tail
  dated : Text → ℕ → Tail
  barred : Text → ℕ → Tail

data Layout : Type 0 where
  tagged : Text → Tail → Layout
  choice : Text → Text → ℕ → Layout

tail_text : Tail → Text
tail_text (date n) = to_dec n
tail_text (dated middle n) = middle ++ b':' ∷ to_dec n
tail_text (barred fields n) = fields ++ b'|' ∷ to_dec n

layout_text : Layout → Text
layout_text (tagged head t) = head ++ b':' ∷ tail_text t
layout_text (choice optout fields n) = optout ++ b'|' ∷ (fields ++ b'|' ∷ to_dec n)

abbrev IsLaidOut : Layout → Type 0
IsLaidOut (tagged head t) = Lacks b':' head × Lacks b'|' head
IsLaidOut (choice optout fields n) = Lacks b':' optout × Lacks b'|' optout

bar-ne-colon : ◌≢◌ {A = ℕ} b'|' b':'
bar-ne-colon e = omega arith

date-ne-dated : (n m : ℕ) (middle : Text) → to_dec n ≢ middle ++ b':' ∷ to_dec m
date-ne-dated n m middle = Lacks-ne-cut b':' (to_dec n) middle (to_dec m) (dec-no_colon n)

date-ne-barred : (n m : ℕ) (fields : Text) → to_dec n ≢ fields ++ b'|' ∷ to_dec m
date-ne-barred n m fields = Lacks-ne-cut b'|' (to_dec n) fields (to_dec m) (dec-no_bar n)

barred-ne-dated : (n m : ℕ) (s t : Text) → s ++ b'|' ∷ to_dec n ≢ t ++ b':' ∷ to_dec m
barred-ne-dated n m s t =
    cut_last_ne b'|' b':' s t (to_dec n) (to_dec m) bar-ne-colon (dec-no_colon n) (dec-no_bar m)

tail_text_injective : (s t : Tail) → tail_text s ≡ tail_text t → s ≡ t
unfolding tail_text
tail_text_injective (date n) (date m) e = ap date (to_dec_injective n m e)
tail_text_injective (date n) (dated t m) e = absurd (date-ne-dated n m t e)
tail_text_injective (date n) (barred t m) e = absurd (date-ne-barred n m t e)
tail_text_injective (dated s n) (date m) e = absurd (date-ne-dated m n s (sym e))
tail_text_injective (dated s n) (dated t m) e =
    let (p, q) =
      cut_last_unique b':' s t (to_dec n) (to_dec m) (dec-no_colon n) (dec-no_colon m) e in
    cc (p, to_dec_injective n m q)
tail_text_injective (dated s n) (barred t m) e = absurd (barred-ne-dated m n t s (sym e))
tail_text_injective (barred s n) (date m) e = absurd (date-ne-barred m n s (sym e))
tail_text_injective (barred s n) (dated t m) e = absurd (barred-ne-dated n m s t e)
tail_text_injective (barred s n) (barred t m) e =
    let (p, q) = cut_last_unique b'|' s t (to_dec n) (to_dec m) (dec-no_bar n) (dec-no_bar m) e in
    cc (p, to_dec_injective n m q)

layout_text_injective :
    (s t : Layout) → IsLaidOut s → IsLaidOut t → layout_text s ≡ layout_text t → s ≡ t
unfolding layout_text
layout_text_injective (tagged h s) (tagged k t) (p, _) (q, _) e =
    let (same_head, same_tail) = cut_unique b':' h k (tail_text s) (tail_text t) p q e in
    cc (same_head, tail_text_injective s t same_tail)
layout_text_injective (tagged h s) (choice o f n) (_, p) (q, _) e =
    absurd
      (cut_first_ne b'|' b':' o h (f ++ b'|' ∷ to_dec n) (tail_text s) bar-ne-colon q p (sym e))
layout_text_injective (choice o f n) (tagged h s) (q, _) (_, p) e =
    absurd (cut_first_ne b'|' b':' o h (f ++ b'|' ∷ to_dec n) (tail_text s) bar-ne-colon q p e)
layout_text_injective (choice o f n) (choice o' f' m) (_, p) (_, q) e =
    let (same_o, rest) =
      cut_unique b'|' o o' (f ++ b'|' ∷ to_dec n) (f' ++ b'|' ∷ to_dec m) p q e in
    let (same_f, same_n) =
      cut_last_unique b'|' f f' (to_dec n) (to_dec m) (dec-no_bar n) (dec-no_bar m) rest in
    cc (same_o, same_f, to_dec_injective n m same_n)

layout : Signed → Layout
layout (auth slug exp) = tagged slug (date exp)
layout (email slug address exp) = tagged slug (dated address exp)
layout (owner_preview slug exp) = tagged (codes "owner-preview") (dated slug exp)
layout (owner_doc doc_id exp) = tagged (codes "owner-doc-preview") (dated doc_id exp)
layout (opt_out optout slug hostname exp) = choice optout (slug ++ b'|' ∷ hostname) exp
layout (print slug hostname cookie_secret exp) =
    tagged (codes "print") (barred (slug ++ b'|' ∷ (to_lower hostname ++ b'|' ∷ cookie_secret)) exp)

message-layout : (s : Signed) → message s ≡ layout_text (layout s)
unfolding auth_message email_message owner_preview_message owner_doc_message opt_out_message
    print_message layout layout_text tail_text
message-layout (auth slug exp) = refl
message-layout (email slug address exp) = refl
message-layout (owner_preview slug exp) = refl
message-layout (owner_doc doc_id exp) = refl
message-layout (opt_out optout slug hostname exp) = simp append_assoc
message-layout (print slug hostname cookie_secret exp) = simp append_assoc

layout-IsLaidOut : (s : Signed) → IsSent s → IsLaidOut (layout s)
unfolding layout
layout-IsLaidOut (auth slug exp) w =
    (word-Lacks b':' slug colon_no-IsWord w, word-Lacks b'|' slug bar_no-IsWord w)
layout-IsLaidOut (email slug address exp) (w, _) =
    (word-Lacks b':' slug colon_no-IsWord w, word-Lacks b'|' slug bar_no-IsWord w)
layout-IsLaidOut (owner_preview slug exp) w = (omega arith, omega arith)
layout-IsLaidOut (owner_doc doc_id exp) w = (omega arith, omega arith)
layout-IsLaidOut (opt_out optout slug hostname exp) (inl e, _, _) = rw e (omega arith, omega arith)
layout-IsLaidOut (opt_out optout slug hostname exp) (inr e, _, _) = rw e (omega arith, omega arith)
layout-IsLaidOut (print slug hostname cookie_secret exp) w = (omega arith, omega arith)

-- An address holds an `@`, which no word does.
address-ne-word :
    (address word : Text)
    → ((l : Text) × (r : Text) × (address ≡ l ++ b'@' ∷ r))
    → All IsWord word
    → address ≢ word
address-ne-word address word (l, r, e) w h =
    Lacks-ne-cut b'@' word l r (word-Lacks b'@' word at_no-IsWord w) (sym h ∙ e)

tagged_inj : (h k : Text) (s t : Tail) → tagged h s ≡ tagged k t → (h ≡ k) × (s ≡ t)
tagged_inj h k s t e = (cc, cc)

opt_out-layout_inj :
    (o s h o' s' h' : Text) (n m : ℕ)
    → All IsWord s
    → All IsWord s'
    → choice o (s ++ b'|' ∷ h) n ≡ choice o' (s' ++ b'|' ∷ h') m
    → opt_out o s h n ≡ opt_out o' s' h' m
opt_out-layout_inj o s h o' s' h' n m w w' e =
    let (p, q) =
      cut_unique b'|' s s' h h' (word-Lacks b'|' s bar_no-IsWord w)
        (word-Lacks b'|' s' bar_no-IsWord w') (cc) in
    let same_o : o ≡ o' = cc in let same_n : n ≡ m = cc in cc

print-layout_inj :
    (s h c s' h' c' : Text) (n m : ℕ)
    → IsSent (print s h c n)
    → IsSent (print s' h' c' m)
    → layout (print s h c n) ≡ layout (print s' h' c' m)
    → print s h c n ≡ print s' h' c' m
unfolding layout
print-layout_inj s h c s' h' c' n m (w, bars, lower, _) (w', bars', lower', _) e =
    let same_n : n ≡ m = cc in
    let (p, q) =
      cut_unique b'|' s s' (to_lower h ++ b'|' ∷ c) (to_lower h' ++ b'|' ∷ c')
        (word-Lacks b'|' s bar_no-IsWord w) (word-Lacks b'|' s' bar_no-IsWord w') (cc) in
    let (p', q') = cut_unique b'|' h h' c c' bars bars' (cc (q, lower, lower')) in cc

layout_injective : (a b : Signed) → IsSent a → IsSent b → layout a ≡ layout b → a ≡ b
unfolding layout
layout_injective (auth s n) (auth s' m) w w' e = cc
layout_injective (email s x n) (email s' x' m) w w' e = cc
layout_injective (email s x n) (owner_preview s' m) (_, at) w' e =
    absurd (address-ne-word x s' at w' (cc))
layout_injective (email s x n) (owner_doc s' m) (_, at) w' e =
    absurd (address-ne-word x s' at w' (cc))
layout_injective (owner_preview s' m) (email s x n) w' (_, at) e =
    absurd (address-ne-word x s' at w' (cc))
layout_injective (owner_doc s' m) (email s x n) w' (_, at) e =
    absurd (address-ne-word x s' at w' (cc))
layout_injective (owner_preview s n) (owner_preview s' m) w w' e = cc
layout_injective (owner_doc s n) (owner_doc s' m) w w' e = cc
layout_injective (opt_out o s h n) (opt_out o' s' h' m) (_, w, _) (_, w', _) e =
    opt_out-layout_inj o s h o' s' h' n m w w' e
layout_injective (print s h c n) (print s' h' c' m) w w' e =
    print-layout_inj s h c s' h' c' n m w w' e
layout_injective _ _ w w' e = cc

-- No two of the cookies, tokens and grants that the worker signs are signed over the same text:
-- equal texts mean the same kind, the same share or document, the same hostname, choice, secret and
-- address, and the same expiry.
pub message_injective : (a b : Signed) → IsSent a → IsSent b → message a ≡ message b → a ≡ b
message_injective a b w w' e = layout_injective a b w w' (
    layout_text_injective (layout a) (layout b) (layout-IsLaidOut a w) (layout-IsLaidOut b w')
      (sym (message-layout a) ∙ (e ∙ message-layout b)))
