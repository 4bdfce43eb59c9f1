-- ===== src/Proxy/Handler/Steps.antt =====
-- Reading a reply back through the stages of the handler.
use htmlradar.Common.{◌≡◌, refl, Bool, true, false, Option, none, some}
use htmlradar.Proxy.World.{
  Response, Reply, Outcome, replied, upstream_error, crashed, Step, stop, next, ◌>>=◌, unless, read,
  Read, got, down, require, finish,
}

-- `q` holds of the response in which an outcome ends.
abbrev pub ends_in : (Response → Bool) → Outcome → Bool
ends_in q (replied r) = q r.response
ends_in q upstream_error = false
ends_in q crashed = false

abbrev pub stops_in : {A : Type 0} → (Response → Bool) → Step A → Bool
stops_in q (stop o) = ends_in q o
stops_in q (next a) = false

-- A stage that never ends in such a response has handed a value on.
pub passed :
    {A : Type 0} (q : Response → Bool) (m : Step A) (k : A → Step Response) {r : Reply}
    → stops_in q m ≡ false
    → finish (m >>= k) ≡ replied r
    → q r.response ≡ true
    → (a : A) × (m ≡ next a) × (finish (k a) ≡ replied r)
passed q (stop (replied s)) k quiet e h = cc
passed q (stop upstream_error) k quiet e h = cc
passed q (stop crashed) k quiet e h = cc
passed q (next a) k quiet e h = (a, refl, e)

pub unless_quiet :
    (q : Response → Bool) (b : Bool) (r : Response) → q r ≡ false → stops_in q (unless b r) ≡ false
unless_quiet q true r h = refl
unless_quiet q false r h = h

pub unless-eq-next : (b : Bool) (r : Response) {u : Unit {0}} → unless b r ≡ next u → b ≡ true
unless-eq-next true r e = refl
unless-eq-next false r e = cc

pub read_quiet : {A : Type 0} (q : Response → Bool) (m : Read A) → stops_in q (read m) ≡ false
read_quiet q (got a) = refl
read_quiet q down = refl

pub read-eq-next : {A : Type 0} (m : Read A) {a : A} → read m ≡ next a → m ≡ got a
read-eq-next (got b) e = cc
read-eq-next down e = cc

pub require_quiet :
    {A : Type 0} (q : Response → Bool) (o : Option A) (r : Response)
    → q r ≡ false
    → stops_in q (require o r) ≡ false
require_quiet q none r h = h
require_quiet q (some a) r h = refl

pub require-eq-next :
    {A : Type 0} (o : Option A) (r : Response) {a : A} → require o r ≡ next a → o ≡ some a
require-eq-next none r e = cc
require-eq-next (some b) r e = cc

pub replied_response : {r s : Reply} → replied r ≡ replied s → s.response ≡ r.response
replied_response e = cc
