-- ===== src/Proxy/Auth/Header.antt =====
-- How auth.ts reads the cookies of a `Cookie` header.
use htmlradar.Common.{
  ◌≡◌, refl, sym, ap, ◌∙◌, Text, List, [], ◌∷◌, ◌++◌, map, All, Lacks, arith, Option, some, none,
  is_space, trim_start, split, split-append, split-Lacks, false, append_assoc,
}
use htmlradar.Proxy.Auth.{cookie, latest, cut_at, entry, entries}

-- A browser's header: `name=value` for each cookie, parted by `; `.
abbrev pub render : List (Text × Text) → Text
render [] = []
render ((name, value) ∷ []) = name ++ b'=' ∷ value
render ((name, value) ∷ next ∷ pairs) =
    name ++ b'=' ∷ (value ++ b';' ∷ b' ' ∷ render (next ∷ pairs))

-- A cookie's name is a token that does not begin with white space; its value holds no `;`.
abbrev pub IsCookie : Text × Text → Type 0
IsCookie ([], value) = ⊥
IsCookie (c ∷ name, value) =
    (is_space c ≡ false) × Lacks b'=' (c ∷ name) × Lacks b';' (c ∷ name) × Lacks b';' value

-- The value that was sent last under a name.
abbrev pub sent : Text → List (Text × Text) → Option Text
sent name pairs = latest name none pairs

abbrev piece : Text × Text → Text
piece (name, value) = name ++ b'=' ∷ value

-- The parts of the header between the semicolons: each but the first has the space in front.
abbrev spaced : List (Text × Text) → List Text
spaced [] = []
spaced (pair ∷ pairs) = (b' ' ∷ piece pair) ∷ spaced pairs

Lacks-piece : (s t : Text) → Lacks b';' s → Lacks b';' t → Lacks b';' (s ++ b'=' ∷ t)
Lacks-piece [] t _ q = (λ e. omega arith, q)
Lacks-piece (c ∷ s) t (p, h) q = (p, Lacks-piece s t h q)

piece-Lacks : (pair : Text × Text) → IsCookie pair → Lacks b';' (piece pair)
piece-Lacks ([], value) h = absurd h
piece-Lacks (c ∷ name, value) (_, _, p, q) = Lacks-piece (c ∷ name) value p q

split_space :
    (s part : Text) (parts : List Text)
    → split b';' s ≡ part ∷ parts
    → split b';' (b' ' ∷ s) ≡ (b' ' ∷ part) ∷ parts
unfolding split
split_space s part parts e = rw e refl

render_cons :
    (pair next : Text × Text) (pairs : List (Text × Text))
    → render (pair ∷ next ∷ pairs) ≡ piece pair ++ b';' ∷ b' ' ∷ render (next ∷ pairs)
render_cons (name, value) next pairs = sym (append_assoc name (b'=' ∷ value) _)

split-render :
    (pair : Text × Text) (pairs : List (Text × Text))
    → All IsCookie (pair ∷ pairs)
    → split b';' (render (pair ∷ pairs)) ≡ piece pair ∷ spaced pairs
split-render pair [] (h, _) = split-Lacks b';' (piece pair) (piece-Lacks pair h)
split-render pair (next ∷ pairs) (h, k) =
    ap (split b';') (render_cons pair next pairs)
    ∙ (split-append b';' (piece pair) (b' ' ∷ render (next ∷ pairs)) (piece-Lacks pair h)
        ∙ ap (λ parts. piece pair ∷ parts)
            (split_space (render (next ∷ pairs)) (piece next) (spaced pairs)
              (split-render next pairs k)))

trim-spaced :
    (pairs : List (Text × Text))
    → All IsCookie pairs
    → map trim_start (spaced pairs) ≡ map piece pairs
unfolding trim_start
trim-spaced [] _ = refl
trim-spaced (([], value) ∷ pairs) (h, _) = absurd h
trim-spaced ((c ∷ name, value) ∷ pairs) ((dark, _, _, _), k) =
    rw dark (ap (λ l. (c ∷ name ++ b'=' ∷ value) ∷ l) (trim-spaced pairs k))

cut_at-piece : (s t : Text) → Lacks b'=' s → cut_at b'=' (s ++ b'=' ∷ t) ≡ some (s, t)
unfolding cut_at
cut_at-piece [] t _ = refl
cut_at-piece (c ∷ s) t (p, h) = ground (arith, cut_at-piece s t h)

entries-pieces :
    (pairs : List (Text × Text)) → All IsCookie pairs → entries (map piece pairs) ≡ pairs
unfolding entries entry
entries-pieces [] _ = refl
entries-pieces (([], value) ∷ pairs) (h, _) = absurd h
entries-pieces ((c ∷ name, value) ∷ pairs) ((_, p, _, _), k) =
    rw (cut_at-piece (c ∷ name) value p) (ap (λ l. (c ∷ name, value) ∷ l) (entries-pieces pairs k))

-- The value that the worker reads under a name is the one that the browser sent last under that
-- name.
pub cookie-render :
    (pairs : List (Text × Text)) (name : Text)
    → All IsCookie pairs
    → cookie (render pairs) name ≡ sent name pairs
unfolding cookie
cookie-render [] name _ = refl
cookie-render (pair ∷ pairs) name (h, k) =
    rw (split-render pair pairs (h, k))
      (rw (trim-spaced pairs k) (ap (latest name none) (entries-pieces (pair ∷ pairs) (h, k))))
