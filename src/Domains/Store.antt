-- ===== src/Domains/Store.antt =====
-- The row of a custom domain, the programs that two services run on it, and their runs side by side.
-- A program is a tree of its calls and writes: between any two of them other programs may move. Every
-- write of the source is one conditional UPDATE, which is atomic.
use htmlradar.Common.{ℕ, Text, codes, Option, Bool, true, false}
use htmlradar.Proxy.World.{DomainState}

pub record Row : Type 0 where
  pub id : Text
  pub owner_id : Text
  pub hostname : Text
  pub state : DomainState
  pub cloudflare_id : Option Text
  pub cloudflare_status : Option Text
  pub ssl_status : Option Text
  pub verified_at : Option ℕ
  pub last_checked_at : Option ℕ
  pub last_error : Option Text
  pub consecutive_failures : Option ℕ
  pub cloudflare_deleted_at : Option ℕ
  pub retired_at : Option ℕ
  pub previous_owner_review : Bool

-- The row, and its owner's default domain for new links.
pub record Store : Type 0 where
  pub row : Row
  pub default_id : Option Text

-- An UPDATE: which store it matches, and what it sets.
pub record Write : Type 0 where
  pub guard : Store → Bool
  pub change : Store → Store

pub record HostnameState : Type 0 where
  pub id : Text
  pub status : Text
  pub ssl_status : Text

-- A call that returns, or throws an error with a message.
pub data Tried (A : Type 0) : Type 0 where
  got : A → Tried A
  threw : (message : Text) → Tried A

-- The calls of Cloudflare that answer with a hostname's state.
pub data Ask : Type 0 where
  create : (hostname : Text) → Ask
  state_of : (id : Text) → Ask
  restart : (id : Text) → Ask

-- What the probe path answers: nothing, or a page with its status, our header, its text and size.
pub data Visit : Type 0 where
  unanswered : (message : Text) → Visit
  page : (status : ℕ) → (header : Option Text) → (body : Text) → (size : ℕ) → Visit

-- The monitor's own reading of Cloudflare's answer.
pub data Look : Type 0 where
  unreachable : (message : Text) → Look
  http : (status : ℕ) → Look
  unreadable no_result : Look
  described : (status ssl : Option Text) → Look

-- The monitor's DELETE: the status, or that the call threw.
pub data Removal : Type 0 where
  removal_threw : (message : Text) → Removal
  removal : (status : ℕ) → Removal

-- The answer of the INSERT of a claim.
pub data Inserted : Type 0 where
  inserted : (id : Text) → Inserted
  no_row : Inserted
  insert_failed : (code : Option Text) → (message : Text) → Inserted

-- The answer of an UPDATE: the row as it was written, no row, or a failure of the database.
pub data Wrote : Type 0 where
  matched : Row → Wrote
  unmatched : Wrote
  db_failed : (message : Text) → Wrote

pub data Note : Type 0 where
  server_error : (step : Text) → (message : Text) → Note
  domain_connected : (hostname : Text) → Note
  domain_disconnected : (hostname reason : Text) → Note

pub data Prog (A : Type 0) : Type 0 where
  done : A → Prog A
  ask : Ask → (Tried HostnameState → Prog A) → Prog A
  find : (hostname : Text) → (Tried (Option HostnameState) → Prog A) → Prog A
  delete : (id : Text) → (Tried (Unit {0}) → Prog A) → Prog A
  visit : (hostname : Text) → (Visit → Prog A) → Prog A
  look : (id : Text) → (Look → Prog A) → Prog A
  remove : (id : Text) → (Removal → Prog A) → Prog A
  insert : (owner hostname : Text) → (Inserted → Prog A) → Prog A
  write : Write → (Wrote → Prog A) → Prog A
  note : Note → Prog A → Prog A

infixl 5 ◌>>=◌ ◌>>◌
unfoldable pub ◌>>=◌ : {A B : Type 0} → Prog A → (A → Prog B) → Prog B
done a >>= k = k a
ask q n >>= k = ask q (λ x. n x >>= k)
find h n >>= k = find h (λ x. n x >>= k)
delete i n >>= k = delete i (λ x. n x >>= k)
visit h n >>= k = visit h (λ x. n x >>= k)
look i n >>= k = look i (λ x. n x >>= k)
remove i n >>= k = remove i (λ x. n x >>= k)
insert o h n >>= k = insert o h (λ x. n x >>= k)
write w n >>= k = write w (λ x. n x >>= k)
note e p >>= k = note e (p >>= k)

unfoldable pub ◌>>◌ : {A B : Type 0} → Prog A → Prog B → Prog B
unfolding ◌>>=◌
p >> q = p >>= λ _. q

-- What the outside answers to the next call, whichever it is, and whether a write is lost before or
-- behind the database.
pub data Fault : Type 0 where
  fine lost_before lost_after : Fault

pub record Answers : Type 0 where
  pub on_ask : Tried HostnameState
  pub on_find : Tried (Option HostnameState)
  pub on_delete : Tried (Unit {0})
  pub on_visit : Visit
  pub on_look : Look
  pub on_remove : Removal
  pub on_insert : Inserted
  pub fault : Fault

-- One write against the database.
abbrev pub written : Bool → Store → Store → Store × Wrote
written true new old = (new, matched new.row)
written false new old = (old, unmatched)

abbrev pub lost : Bool → Store → Store → Store × Wrote
lost true new old = (new, db_failed (codes "lost"))
lost false new old = (old, db_failed (codes "lost"))

unfoldable pub apply : Fault → Write → Store → Store × Wrote
apply lost_before w s = (s, db_failed (codes "lost"))
apply fine w s = written (w.guard s) (w.change s) s
apply lost_after w s = lost (w.guard s) (w.change s) s

-- A program moves to its next call.
unfoldable pub advance : {A : Type 0} → Answers → Prog A → Store → Prog A × Store
unfolding apply
advance x (done a) s = (done a, s)
advance x (ask q n) s = (n x.on_ask, s)
advance x (find h n) s = (n x.on_find, s)
advance x (delete i n) s = (n x.on_delete, s)
advance x (visit h n) s = (n x.on_visit, s)
advance x (look i n) s = (n x.on_look, s)
advance x (remove i n) s = (n x.on_remove, s)
advance x (insert o h n) s = (n x.on_insert, s)
advance x (write w n) s = let (t, a) = apply x.fault w s in (n a, t)
advance x (note e p) s = (p, s)
