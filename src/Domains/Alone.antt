-- ===== src/Domains/Alone.antt =====
-- One request run to its end while nothing else moves; each call gets an answer of its own.
use htmlradar.Common.{ℕ, suc, ◌≡◌, refl, Text, Option, arith, Bool, true, false, if◌then◌else◌}
use htmlradar.Domains.Lifecycle.{IsQuiet}
use htmlradar.Domains.Store.{
  Store, Write, Wrote, matched, unmatched, db_failed, HostnameState, Tried, Visit, Look, Removal,
  Inserted, Answers, Fault, fine, lost_before, lost_after, written, lost, Prog, done, ask, find,
  delete, visit, look, remove, insert, write, note, apply, ◌>>=◌,
}

unfoldable pub complete : {A : Type 0} → (ℕ → Answers) → ℕ → Prog A → Store → A × Store
unfolding apply
complete o i (done a) s = (a, s)
complete o i (ask q n) s = complete o (suc i) (n (o i).on_ask) s
complete o i (find h n) s = complete o (suc i) (n (o i).on_find) s
complete o i (delete h n) s = complete o (suc i) (n (o i).on_delete) s
complete o i (visit h n) s = complete o (suc i) (n (o i).on_visit) s
complete o i (look h n) s = complete o (suc i) (n (o i).on_look) s
complete o i (remove h n) s = complete o (suc i) (n (o i).on_remove) s
complete o i (insert w h n) s = complete o (suc i) (n (o i).on_insert) s
complete o i (write w n) s =
    complete o (suc i) (n (apply (o i).fault w s).1) (apply (o i).fault w s).0
complete o i (note e p) s = complete o i p s

-- However its calls are answered, the program ends in a result and a store that fit.
abbrev pub EndsIn : {A : Type 0} → (A → Store → Type 0) → Prog A → Store → Type 0
EndsIn fits (done a) s = fits a s
EndsIn fits (ask q n) s = (x : Tried HostnameState) → EndsIn fits (n x) s
EndsIn fits (find h n) s = (x : Tried (Option HostnameState)) → EndsIn fits (n x) s
EndsIn fits (delete h n) s = (x : Tried (Unit {0})) → EndsIn fits (n x) s
EndsIn fits (visit h n) s = (x : Visit) → EndsIn fits (n x) s
EndsIn fits (look h n) s = (x : Look) → EndsIn fits (n x) s
EndsIn fits (remove h n) s = (x : Removal) → EndsIn fits (n x) s
EndsIn fits (insert w h n) s = (x : Inserted) → EndsIn fits (n x) s
EndsIn fits (write w n) s = (f : Fault) → EndsIn fits (n (apply f w s).1) (apply f w s).0
EndsIn fits (note e p) s = EndsIn fits p s

pub complete-EndsIn :
    {A : Type 0} (fits : A → Store → Type 0) (o : ℕ → Answers) (i : ℕ) (p : Prog A) (s : Store)
    → EndsIn fits p s
    → fits (complete o i p s).0 (complete o i p s).1
unfolding complete
complete-EndsIn fits o i (done a) s h = h
complete-EndsIn fits o i (ask q n) s h = complete-EndsIn fits o (suc i) (n _) s (h _)
complete-EndsIn fits o i (find q n) s h = complete-EndsIn fits o (suc i) (n _) s (h _)
complete-EndsIn fits o i (delete q n) s h = complete-EndsIn fits o (suc i) (n _) s (h _)
complete-EndsIn fits o i (visit q n) s h = complete-EndsIn fits o (suc i) (n _) s (h _)
complete-EndsIn fits o i (look q n) s h = complete-EndsIn fits o (suc i) (n _) s (h _)
complete-EndsIn fits o i (remove q n) s h = complete-EndsIn fits o (suc i) (n _) s (h _)
complete-EndsIn fits o i (insert w q n) s h = complete-EndsIn fits o (suc i) (n _) s (h _)
complete-EndsIn fits o i (write w n) s h =
    complete-EndsIn fits o (suc i) (n (apply (o i).fault w s).1) (apply (o i).fault w s).0
      (h (o i).fault)
complete-EndsIn fits o i (note e p) s h = complete-EndsIn fits o i p s h

written-EndsIn :
    {A : Type 0} (fits : A → Store → Type 0) (n : Wrote → Prog A) (b : Bool) (t s : Store)
    → (b ≡ true → EndsIn fits (n (matched t.row)) t)
    → (b ≡ false → EndsIn fits (n unmatched) s)
    → EndsIn fits (n (written b t s).1) (written b t s).0
written-EndsIn fits n true t s h k = h refl
written-EndsIn fits n false t s h k = k refl

lost-EndsIn :
    {A : Type 0} (fits : A → Store → Type 0) (n : Wrote → Prog A) (b : Bool) (t s : Store)
    → ((m : Text) → EndsIn fits (n (db_failed m)) s)
    → (b ≡ true → (m : Text) → EndsIn fits (n (db_failed m)) t)
    → EndsIn fits (n (lost b t s).1) (lost b t s).0
lost-EndsIn fits n true t s h k = k refl _
lost-EndsIn fits n false t s h k = h _

-- A write, by what it is answered.
pub write-EndsIn :
    {A : Type 0} (fits : A → Store → Type 0) (w : Write) (n : Wrote → Prog A) (s : Store)
    → (w.guard s ≡ true → EndsIn fits (n (matched (w.change s).row)) (w.change s))
    → (w.guard s ≡ false → EndsIn fits (n unmatched) s)
    → ((m : Text) → EndsIn fits (n (db_failed m)) s)
    → (w.guard s ≡ true → (m : Text) → EndsIn fits (n (db_failed m)) (w.change s))
    → EndsIn fits (write w n) s
unfolding apply
write-EndsIn fits w n s h k l g fine = written-EndsIn fits n (w.guard s) (w.change s) s h k
write-EndsIn fits w n s h k l g lost_before = l _
write-EndsIn fits w n s h k l g lost_after = lost-EndsIn fits n (w.guard s) (w.change s) s l g

-- A program that writes nothing, and what follows it.
pub EndsIn-after :
    {A B : Type 0} (fits : B → Store → Type 0) (p : Prog A) (f : A → Prog B) (s : Store)
    → IsQuiet p
    → ((a : A) → EndsIn fits (f a) s)
    → EndsIn fits (p >>= f) s
unfolding ◌>>=◌
EndsIn-after fits (done a) f s q h = h a
EndsIn-after fits (ask x n) f s q h = λ y. EndsIn-after fits (n y) f s (q y) h
EndsIn-after fits (find x n) f s q h = λ y. EndsIn-after fits (n y) f s (q y) h
EndsIn-after fits (delete x n) f s q h = λ y. EndsIn-after fits (n y) f s (q y) h
EndsIn-after fits (visit x n) f s q h = λ y. EndsIn-after fits (n y) f s (q y) h
EndsIn-after fits (look x n) f s q h = λ y. EndsIn-after fits (n y) f s (q y) h
EndsIn-after fits (remove x n) f s q h = λ y. EndsIn-after fits (n y) f s (q y) h
EndsIn-after fits (insert o x n) f s q h = λ y. EndsIn-after fits (n y) f s (q y) h
EndsIn-after fits (write w n) f s q h = absurd q
EndsIn-after fits (note e p) f s q h = EndsIn-after fits p f s q h

pub if-EndsIn :
    {A : Type 0} (fits : A → Store → Type 0) (b : Bool) (p q : Prog A) (s : Store)
    → EndsIn fits p s
    → EndsIn fits q s
    → EndsIn fits (if b then p else q) s
if-EndsIn fits true p q s h k = h
if-EndsIn fits false p q s h k = k

apply-matched :
    (f : Fault) (w : Write) (s : Store)
    → f ≡ fine
    → w.guard s ≡ true
    → apply f w s ≡ (w.change s, matched (w.change s).row)
unfolding apply
apply-matched fine w s e g = rw g refl
apply-matched lost_before w s e g = ground arith
apply-matched lost_after w s e g = ground arith

answered-EndsIn :
    {A : Type 0} (fits : A → Store → Type 0) (o : ℕ → Answers) (i : ℕ) (n : Wrote → Prog A)
    (p q : Store × Wrote)
    → p ≡ q
    → EndsIn fits (n q.1) q.0
    → fits (complete o i (n p.1) p.0).0 (complete o i (n p.1) p.0).1
answered-EndsIn fits o i n p q e h = rw e (complete-EndsIn fits o i (n q.1) q.0 h)

-- A write that is not lost and matches.
pub complete-matched :
    {A : Type 0} (fits : A → Store → Type 0) (o : ℕ → Answers) (i : ℕ) (w : Write)
    (n : Wrote → Prog A) (s : Store)
    → (o i).fault ≡ fine
    → w.guard s ≡ true
    → EndsIn fits (n (matched (w.change s).row)) (w.change s)
    → fits (complete o i (write w n) s).0 (complete o i (write w n) s).1
unfolding complete
complete-matched fits o i w n s f g h =
    answered-EndsIn fits o (suc i) n (apply (o i).fault w s) (w.change s, matched (w.change s).row)
      (apply-matched (o i).fault w s f g) h

-- A program that writes nothing, then the rest from its result, at some later call.
pub complete-after :
    {A B : Type 0} (o : ℕ → Answers) (i : ℕ) (p : Prog A) (f : A → Prog B) (s : Store)
    → IsQuiet p
    → (j : ℕ) × (complete o i (p >>= f) s ≡ complete o j (f (complete o i p s).0) s)
unfolding complete ◌>>=◌
complete-after o i (done a) f s q = (i, refl)
complete-after o i (ask x n) f s q = complete-after o (suc i) (n _) f s (q _)
complete-after o i (find x n) f s q = complete-after o (suc i) (n _) f s (q _)
complete-after o i (delete x n) f s q = complete-after o (suc i) (n _) f s (q _)
complete-after o i (visit x n) f s q = complete-after o (suc i) (n _) f s (q _)
complete-after o i (look x n) f s q = complete-after o (suc i) (n _) f s (q _)
complete-after o i (remove x n) f s q = complete-after o (suc i) (n _) f s (q _)
complete-after o i (insert w x n) f s q = complete-after o (suc i) (n _) f s (q _)
complete-after o i (write w n) f s q = absurd q
complete-after o i (note e p) f s q = complete-after o i p f s q
