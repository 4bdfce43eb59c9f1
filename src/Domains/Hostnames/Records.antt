-- ===== src/Domains/Hostnames/Records.antt =====
-- The DNS record that the owner is told to add names the hostname.
use htmlradar.Common.{
  ℕ, zero, suc, ◌+◌, ◌-◌, ◌≤◌, ◌<◌, max, Text, Option, none, some, List, [], ◌∷◌, ◌++◌, Bool, true,
  false, if◌then◌else◌, same, split, length, take, drop, ltb, ◌≡◌, refl, ap, ◌∙◌, arith,
  append_assoc,
}
use htmlradar.Common.Splits.{join, join-split}
use htmlradar.Domains.Hostnames.{
  Settings, Problem, no_name, too_long, ours, not_a_domain, punycode, lookalike, bare,
  describe_hostname_problem, normalize_hostname, short_name, registrable_domain, suffix_labels,
  is_pilot_hostname,
}

-- A list of parts cut behind its first k, where both sides have a part.
join-cut :
    (sep k : ℕ) (l : List Text)
    → 1 ≤ k
    → k < length l
    → join sep (take k l) ++ sep ∷ join sep (drop k l) ≡ join sep l
join-cut sep zero l p q = absurd (omega arith)
join-cut sep (suc k) [] p q = absurd (omega arith)
join-cut sep (suc k) (x ∷ []) p q = absurd (omega arith)
join-cut sep (suc zero) (x ∷ y ∷ l) p q = refl
join-cut sep (suc (suc k)) (x ∷ y ∷ l) p q =
    rw (append_assoc x (sep ∷ join sep (y ∷ take k l)) (sep ∷ join sep (drop k l)))
      (ap (λ t. x ++ sep ∷ t) (join-cut sep (suc k) (y ∷ l) (omega arith) (omega arith)))

-- The tests in a row: where the third is not met and none refuses, the last is not met either.
last_test :
    (a b p c d f g last : Bool) (q : Option Problem)
    → p ≡ false
    → (if a
        then some no_name
        else if b
        then some too_long
        else if p
        then q
        else if c
        then some not_a_domain
        else if d
        then some punycode
        else if f
        then some lookalike
        else if g
        then some ours
        else if last
        then some bare
        else none)
      ≡ none
    → last ≡ false
last_test a b p c d f g false q n e = refl
last_test true b p c d f g true q n e = ground arith
last_test false true p c d f g true q n e = ground arith
last_test false false true c d f g true q n e = ground arith
last_test false false false true d f g true q n e = ground arith
last_test false false false false true f g true q n e = ground arith
last_test false false false false false true g true q n e = ground arith
last_test false false false false false false true true q n e = ground arith
last_test false false false false false false false true q n e = ground arith

-- A hostname that is accepted, and is none of the two of the pilot, has a label before the domain that
-- was bought.
accepted-labels :
    (e : Settings) (raw : Text) (owner : Option Text)
    → is_pilot_hostname e (normalize_hostname raw) ≡ false
    → describe_hostname_problem e raw owner ≡ none
    → suffix_labels (normalize_hostname raw) + 2 ≤ length (split b'.' (normalize_hostname raw))
unfolding describe_hostname_problem
accepted-labels e raw owner pilot h =
    let hostname = normalize_hostname raw in
    let enough =
      last_test (same hostname []) (ltb 253 (length hostname)) (is_pilot_hostname e hostname) _ _ _
        _ (ltb (length (split b'.' hostname)) (suffix_labels hostname + 2)) _ pilot h in
    ground arith

-- For every hostname that is accepted and is none of the two of the pilot, the short name of its record
-- and the domain that was bought, with a dot between them, are the hostname.
pub short_name-registrable_domain :
    (e : Settings) (raw : Text) (owner : Option Text)
    → is_pilot_hostname e (normalize_hostname raw) ≡ false
    → describe_hostname_problem e raw owner ≡ none
    → short_name (normalize_hostname raw) ++ b'.' ∷ registrable_domain (normalize_hostname raw)
      ≡ normalize_hostname raw
unfolding short_name registrable_domain
short_name-registrable_domain e raw owner pilot h =
    let hostname = normalize_hostname raw in
    let labels = split b'.' hostname in
    let many = accepted-labels e raw owner pilot h in
    let keep = length labels - (suffix_labels hostname + 1) in
    let small : max 1 keep ≡ keep = ground arith in
    rw small (join-cut b'.' keep labels (omega arith) (omega arith) ∙ join-split b'.' hostname)
