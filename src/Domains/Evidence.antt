-- ===== src/Domains/Evidence.antt =====
-- What a program has to have seen before a write of it may bring a hostname live.
use htmlradar.Common.{
  ◌≡◌, refl, Text, Option, none, some, Bool, true, false, ◌&&◌, if◌then◌else◌, ◌⊎◌,
}
use htmlradar.Proxy.World.{live}
use htmlradar.Domains.Store.{
  Store, Write, HostnameState, Tried, got, threw, Visit, Look, described, Removal, Inserted, Wrote,
  Prog, done, ask, find, delete, visit, look, remove, insert, write, note, ◌>>=◌,
}
use htmlradar.Domains.Check.{is_active}
use htmlradar.Domains.Lifecycle.{IsQuiet}

-- Cloudflare's latest answer has the hostname and its certificate active.
abbrev pub says_active : Tried HostnameState → Bool
says_active (threw m) = false
says_active (got s) = is_active s.status && is_active s.ssl_status

abbrev pub is_said : Option Text → Bool
is_said none = false
is_said (some status) = is_active status

abbrev pub shows_active : Look → Bool
shows_active (described status ssl) = is_said status && is_said ssl
shows_active _ = false

-- A write after which the hostname is live only if it was live before.
abbrev pub KeepsDown : Write → Type 0
KeepsDown w = (s : Store) → (w.change s).row.state ≡ live → s.row.state ≡ live

-- Every write that may bring the hostname live comes after an answer that it is active and a visit
-- that `shows` it, each the latest of its kind.
abbrev pub IsEarned : {A : Type 0} → (Visit → Bool) → Bool → Bool → Prog A → Type 0
IsEarned shows active reached (done a) = Unit
IsEarned shows active reached (ask q n) =
    (x : Tried HostnameState) → IsEarned shows (says_active x) reached (n x)
IsEarned shows active reached (find h n) =
    (x : Tried (Option HostnameState)) → IsEarned shows active reached (n x)
IsEarned shows active reached (delete i n) =
    (x : Tried (Unit {0})) → IsEarned shows active reached (n x)
IsEarned shows active reached (visit h n) = (x : Visit) → IsEarned shows active (shows x) (n x)
IsEarned shows active reached (look i n) =
    (x : Look) → IsEarned shows (shows_active x) reached (n x)
IsEarned shows active reached (remove i n) = (x : Removal) → IsEarned shows active reached (n x)
IsEarned shows active reached (insert o h n) = (x : Inserted) → IsEarned shows active reached (n x)
IsEarned shows active reached (write w n) =
    ((active && reached ≡ true) ⊎ KeepsDown w) × ((x : Wrote) → IsEarned shows active reached (n x))
IsEarned shows active reached (note e p) = IsEarned shows active reached p

pub IsEarned-after :
    {A B : Type 0} (shows : Visit → Bool) (p : Prog A) (f : A → Prog B)
    → IsQuiet p
    → ((active reached : Bool) (a : A) → IsEarned shows active reached (f a))
    → (active reached : Bool) → IsEarned shows active reached (p >>= f)
unfolding ◌>>=◌
IsEarned-after shows (done a) f q h b c = h b c a
IsEarned-after shows (ask x n) f q h b c = λ y. IsEarned-after shows (n y) f (q y) h _ _
IsEarned-after shows (find x n) f q h b c = λ y. IsEarned-after shows (n y) f (q y) h b c
IsEarned-after shows (delete x n) f q h b c = λ y. IsEarned-after shows (n y) f (q y) h b c
IsEarned-after shows (visit x n) f q h b c = λ y. IsEarned-after shows (n y) f (q y) h _ _
IsEarned-after shows (look x n) f q h b c = λ y. IsEarned-after shows (n y) f (q y) h _ _
IsEarned-after shows (remove x n) f q h b c = λ y. IsEarned-after shows (n y) f (q y) h b c
IsEarned-after shows (insert o x n) f q h b c = λ y. IsEarned-after shows (n y) f (q y) h b c
IsEarned-after shows (write w n) f q h b c = absurd q
IsEarned-after shows (note e p) f q h b c = IsEarned-after shows p f q h b c

pub if-IsEarned :
    {A : Type 0} (shows : Visit → Bool) (active reached b : Bool) (p q : Prog A)
    → (b ≡ true → IsEarned shows active reached p)
    → (b ≡ false → IsEarned shows active reached q)
    → IsEarned shows active reached (if b then p else q)
if-IsEarned shows active reached true p q h k = h refl
if-IsEarned shows active reached false p q h k = k refl
