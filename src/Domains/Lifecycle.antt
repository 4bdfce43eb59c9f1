-- ===== src/Domains/Lifecycle.antt =====
-- The life of a claim, stated without the services that move it, and what makes a program respect it.
pub mod Writes
use htmlradar.Common.{
  ap, ℕ, ◌≡◌, ◌≢◌, ◌↔◌, refl, sym, ◌∙◌, Text, Option, none, some, List, [], ◌∷◌, Bool, true, false,
  ◌||◌, is_some, arith, inl, inr, ◌⊎◌, if◌then◌else◌,
}
use htmlradar.Proxy.World.{DomainState, pending, live, disconnected, retired}
use htmlradar.Domains.Store.{
  Row, Store, Write, HostnameState, Tried, Visit, Look, Removal, Inserted, Wrote, matched,
  unmatched, db_failed, Prog, done, ask, find, delete, visit, look, remove, insert, write, note,
  ◌>>=◌,
}

-- One name, one owner.
abbrev pub IsSameClaim : Row → Row → Type 0
IsSameClaim r t = (t.id ≡ r.id) × (t.owner_id ≡ r.owner_id) × (t.hostname ≡ r.hostname)

-- What may happen to a claim. A claim that is not retired is noted on, goes live, or is retired; one
-- that is live may fall; a retired one only has its clean-up written down.
pub data Step (r t : Row) : Type 0 where
  noted :
      r.state ≢ retired
      → t.state ≡ r.state
      → t.retired_at ≡ r.retired_at
      → IsSameClaim r t
      → Step r t
  goes_live :
      r.state ≢ retired → t.state ≡ live → t.retired_at ≡ r.retired_at → IsSameClaim r t → Step r t
  falls :
      r.state ≡ live
      → t.state ≡ disconnected
      → t.retired_at ≡ r.retired_at
      → IsSameClaim r t
      → Step r t
  retires :
      r.state ≢ retired
      → t.state ≡ retired
      → is_some t.retired_at ≡ true
      → IsSameClaim r t
      → Step r t
  swept :
      r.state ≡ retired
      → t ≡ record r { last_error = t.last_error; cloudflare_deleted_at = t.cloudflare_deleted_at }
      → Step r t

-- What one write, or one other move of the services, may do: nothing, or one step.
abbrev pub IsOneStep : Row → Row → Type 0
IsOneStep r t = (t ≡ r) ⊎ Step r t

-- A history of a claim: from each row to the next, at most one step.
abbrev pub IsHistory : Row → List Row → Type 0
IsHistory r [] = Unit
IsHistory r (t ∷ later) = IsOneStep r t × IsHistory t later

-- Nothing but the clean-up was written down.
abbrev pub IsSwept : Row → Row → Type 0
IsSwept r t =
    t ≡ record r { last_error = t.last_error; cloudflare_deleted_at = t.cloudflare_deleted_at }

-- A row that is retired, and no other, has the instant of its retirement.
abbrev pub IsConsistent : Row → Type 0
IsConsistent r = (r.state ≡ retired) ↔ (is_some r.retired_at ≡ true)

pub Step-IsConsistent : (r t : Row) → Step r t → IsConsistent r → IsConsistent t
Step-IsConsistent r t (noted a b c d) h = (λ e. rw c (h.0 (sym b ∙ e)), λ e. b ∙ h.1 (rw c at e))
Step-IsConsistent r t (goes_live a b c d) h = (λ e. cc, λ e. absurd (a (h.1 (rw c at e))))
Step-IsConsistent r t (falls a b c d) h = (λ e. cc, λ e. cc (h.1 (rw c at e)))
Step-IsConsistent r t (retires a b c d) h = (λ e. c, λ e. b)
Step-IsConsistent r t (swept a e) h = rw e h

pub Step-retired : (r t : Row) → Step r t → r.state ≡ retired → t.state ≡ retired
Step-retired r t (noted a b c d) h = absurd (a h)
Step-retired r t (goes_live a b c d) h = absurd (a h)
Step-retired r t (falls a b c d) h = cc
Step-retired r t (retires a b c d) h = b
Step-retired r t (swept a e) h = cc

-- A write keeps to the life of a claim, on every consistent row that it matches; where `known`, the
-- row is retired already.
abbrev pub IsAllowed : Bool → Write → Type 0
IsAllowed known w =
    (s : Store)
    → IsConsistent s.row
    → (known ≡ false) ⊎ (s.row.state ≡ retired)
    → w.guard s ≡ true
    → IsOneStep s.row (w.change s).row

-- What a write that matched lets the program know.
abbrev pub Teaches : Bool → Bool → Write → Type 0
Teaches known learnt w =
    (s : Store)
    → (known ≡ false) ⊎ (s.row.state ≡ retired)
    → (learnt ≡ false) ⊎ ((w.change s).row.state ≡ retired)

-- Every write of the program is allowed, whatever is answered to its calls.
abbrev pub IsSafe : {A : Type 0} → Bool → Prog A → Type 0
IsSafe known (done a) = Unit
IsSafe known (ask q n) = (x : Tried HostnameState) → IsSafe known (n x)
IsSafe known (find h n) = (x : Tried (Option HostnameState)) → IsSafe known (n x)
IsSafe known (delete i n) = (x : Tried (Unit {0})) → IsSafe known (n x)
IsSafe known (visit h n) = (x : Visit) → IsSafe known (n x)
IsSafe known (look i n) = (x : Look) → IsSafe known (n x)
IsSafe known (remove i n) = (x : Removal) → IsSafe known (n x)
IsSafe known (insert o h n) = (x : Inserted) → IsSafe known (n x)
IsSafe known (write w n) =
    IsAllowed known w
    × ((learnt : Bool) × Teaches known learnt w × ((r : Row) → IsSafe learnt (n (matched r))))
    × IsSafe known (n unmatched)
    × ((m : Text) → IsSafe known (n (db_failed m)))
IsSafe known (note e p) = IsSafe known p

-- A program that writes nothing.
abbrev pub IsQuiet : {A : Type 0} → Prog A → Type 0
IsQuiet (done a) = Unit
IsQuiet (ask q n) = (x : Tried HostnameState) → IsQuiet (n x)
IsQuiet (find h n) = (x : Tried (Option HostnameState)) → IsQuiet (n x)
IsQuiet (delete i n) = (x : Tried (Unit {0})) → IsQuiet (n x)
IsQuiet (visit h n) = (x : Visit) → IsQuiet (n x)
IsQuiet (look i n) = (x : Look) → IsQuiet (n x)
IsQuiet (remove i n) = (x : Removal) → IsQuiet (n x)
IsQuiet (insert o h n) = (x : Inserted) → IsQuiet (n x)
IsQuiet (write w n) = ⊥
IsQuiet (note e p) = IsQuiet p

pub IsSafe-after :
    {A B : Type 0} (known : Bool) (p : Prog A) (f : A → Prog B)
    → IsQuiet p
    → ((a : A) → IsSafe known (f a))
    → IsSafe known (p >>= f)
unfolding ◌>>=◌
IsSafe-after known (done a) f q h = h a
IsSafe-after known (ask x n) f q h = λ y. IsSafe-after known (n y) f (q y) h
IsSafe-after known (find x n) f q h = λ y. IsSafe-after known (n y) f (q y) h
IsSafe-after known (delete x n) f q h = λ y. IsSafe-after known (n y) f (q y) h
IsSafe-after known (visit x n) f q h = λ y. IsSafe-after known (n y) f (q y) h
IsSafe-after known (look x n) f q h = λ y. IsSafe-after known (n y) f (q y) h
IsSafe-after known (remove x n) f q h = λ y. IsSafe-after known (n y) f (q y) h
IsSafe-after known (insert o x n) f q h = λ y. IsSafe-after known (n y) f (q y) h
IsSafe-after known (write w n) f q h = absurd q
IsSafe-after known (note e p) f q h = IsSafe-after known p f q h

pub if-IsSafe :
    {A : Type 0} (known b : Bool) (p q : Prog A)
    → (b ≡ true → IsSafe known p)
    → (b ≡ false → IsSafe known q)
    → IsSafe known (if b then p else q)
if-IsSafe known true p q h k = h refl
if-IsSafe known false p q h k = k refl

pub if-IsQuiet :
    {A : Type 0} (b : Bool) (p q : Prog A) → IsQuiet p → IsQuiet q → IsQuiet (if b then p else q)
if-IsQuiet true p q h k = h
if-IsQuiet false p q h k = k

-- A write that teaches nothing, and what follows it.
pub IsSafe-write :
    {A : Type 0} (w : Write) (n : Wrote → Prog A)
    → IsAllowed false w
    → ((x : Wrote) → IsSafe false (n x))
    → IsSafe false (write w n)
IsSafe-write w n a h =
    (a, (false, λ s e. inl refl, λ r. h (matched r)), h unmatched, λ m. h (db_failed m))

pub IsOneStep-IsConsistent : (r t : Row) → IsOneStep r t → IsConsistent r → IsConsistent t
IsOneStep-IsConsistent r t (inl e) h = rw e h
IsOneStep-IsConsistent r t (inr a) h = Step-IsConsistent r t a h

pub IsOneStep-retired : (r t : Row) → IsOneStep r t → r.state ≡ retired → t.state ≡ retired
IsOneStep-retired r t (inl e) h = rw e h
IsOneStep-retired r t (inr a) h = Step-retired r t a h

IsOneStep-IsSwept : (r t : Row) → IsOneStep r t → r.state ≡ retired → IsSwept r t
IsOneStep-IsSwept r t (inl e) h = rw e refl
IsOneStep-IsSwept r t (inr (noted a b c d)) h = absurd (a h)
IsOneStep-IsSwept r t (inr (goes_live a b c d)) h = absurd (a h)
IsOneStep-IsSwept r t (inr (falls a b c d)) h = cc
IsOneStep-IsSwept r t (inr (retires a b c d)) h = absurd (a h)
IsOneStep-IsSwept r t (inr (swept a e)) h = e

IsSwept-trans : (r s t : Row) → IsSwept r s → IsSwept s t → IsSwept r t
IsSwept-trans r s t a b =
    b
    ∙ ap
        (λ (x : Row). record x {
          last_error = t.last_error;
          cloudflare_deleted_at = t.cloudflare_deleted_at;
        })
        a

-- The row that a history ends with.
abbrev pub newest : Row → List Row → Row
newest r [] = r
newest r (t ∷ later) = newest t later

-- A history behind a retirement.
pub IsHistory-retired :
    (r : Row) (later : List Row)
    → IsHistory r later
    → IsConsistent r
    → r.state ≡ retired
    → IsSwept r (newest r later)
      × ((newest r later).state ≡ retired)
      × (is_some (newest r later).retired_at ≡ true)
IsHistory-retired r [] h c e = (refl, e, c.0 e)
IsHistory-retired r (t ∷ later) h c e =
    let (clean, still, since) =
      IsHistory-retired t later h.1 (IsOneStep-IsConsistent r t h.0 c)
        (IsOneStep-retired r t h.0 e) in
    (IsSwept-trans r t (newest t later) (IsOneStep-IsSwept r t h.0 e) clean, still, since)
