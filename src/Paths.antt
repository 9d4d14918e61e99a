-- ===== src/Paths.antt =====
-- What the program uses of Go's path/filepath on Unix, and strings.Split and strings.Join at
-- slashes. A path is taken apart into its segments.
pub mod Segments
pub mod Laws
pub mod Places
pub mod Relative
use mathlib.Core.List.{reverse}
use pot_play_storage.Prelude.{
  ℕ, Bool, true, false, List, [], ◌∷◌, ◌++◌, map, Option, none, some, Bytes, codes, ◌==◌, ◌||◌,
  nat_eq, if◌then◌else◌,
}

-- A byte before the first segment.
unfoldable pub onto_first : ℕ → List Bytes → List Bytes
onto_first c [] = (c ∷ []) ∷ []
onto_first c (x ∷ xs) = (c ∷ x) ∷ xs

-- strings.Split(s, "/")
unfoldable pub split : Bytes → List Bytes
unfolding onto_first
split [] = [] ∷ []
split (c ∷ s) = let rest = split s in if nat_eq c b'/' then [] ∷ rest else onto_first c rest

-- strings.Join(segments, "/")
unfoldable pub join_segments : List Bytes → Bytes
join_segments [] = []
join_segments (x ∷ []) = x
join_segments (x ∷ y ∷ xs) = x ++ (b'/' ∷ join_segments (y ∷ xs))

unfoldable pub is_rooted : Bytes → Bool
is_rooted [] = false
is_rooted (c ∷ s) = nat_eq c b'/'

-- ".." takes the last segment back. At the root it goes nowhere; before a relative path it stays.
unfoldable pub back : Bool → List Bytes → List Bytes
back rooted [] = if rooted then [] else codes ".." ∷ []
back rooted (top ∷ rest) = if top == codes ".." then codes ".." ∷ top ∷ rest else rest

-- A segment that is no step: a doubled slash, or ".".
abbrev pub is_idle : Bytes → Bool
is_idle s = s == [] || s == codes "."

-- One segment, on the segments so far with the last one first.
unfoldable pub step : Bool → List Bytes → Bytes → List Bytes
unfolding back
step rooted stack s =
    if is_idle s then stack else if s == codes ".." then back rooted stack else s ∷ stack

unfoldable pub walk : Bool → List Bytes → List Bytes → List Bytes
unfolding step
walk rooted stack [] = stack
walk rooted stack (s ∷ segments) = walk rooted (step rooted stack s) segments

-- The text of a cleaned path.
unfoldable pub render : Bool → List Bytes → Bytes
unfolding join_segments
render true segments = b'/' ∷ join_segments segments
render false [] = codes "."
render false (x ∷ xs) = join_segments (x ∷ xs)

-- filepath.Clean(path)
unfoldable pub clean : Bytes → Bytes
unfolding walk render is_rooted split
clean path = render (is_rooted path) (reverse (walk (is_rooted path) [] (split path)))

-- filepath.Join(a, b): empty elements are left out.
unfoldable pub join : Bytes → Bytes → Bytes
unfolding clean
join [] [] = []
join [] (c ∷ b) = clean (c ∷ b)
join (c ∷ a) b = clean (c ∷ a ++ (b'/' ∷ b))

-- filepath.Abs(path), in a working directory
unfoldable pub abs : Bytes → Bytes → Bytes
unfolding clean join is_rooted
abs directory path = if is_rooted path then clean path else join directory path

-- A path up to its last slash, with it.
up_to_slash : Bytes → Bytes
up_to_slash [] = []
up_to_slash (c ∷ s) =
    let rest = up_to_slash s in
    if rest == [] then (if nat_eq c b'/' then c ∷ [] else []) else c ∷ rest

-- filepath.Dir(path)
unfoldable pub dir : Bytes → Bytes
unfolding up_to_slash clean
dir path = clean (up_to_slash path)

-- The segments that are steps.
unfoldable pub steps_of : List Bytes → List Bytes
steps_of [] = []
steps_of (s ∷ segments) = let rest = steps_of segments in if is_idle s then rest else s ∷ rest

abbrev pub steps : Bytes → List Bytes
steps path = steps_of (split path)

-- The place of a path in a working directory: the directories from the root, the last one first.
abbrev pub place : Bytes → Bytes → List Bytes
place directory path =
    walk true (if is_rooted path then [] else walk true [] (split directory)) (split path)

-- The steps that are left of two paths after those that they share.
unfoldable pub apart : List Bytes → List Bytes → List Bytes × List Bytes
apart [] ys = ([], ys)
apart (x ∷ xs) [] = (x ∷ xs, [])
apart (x ∷ xs) (y ∷ ys) = let rest = apart xs ys in if x == y then rest else (x ∷ xs, y ∷ ys)

-- From a directory up by the first steps and down by the second. Steps ".." cannot be gone up by.
unfoldable pub between : List Bytes → List Bytes → Option Bytes
unfolding join_segments
between [] down = some (join_segments down)
between (s ∷ up) down =
    if s == codes ".." then none else some (join_segments (map (λ x. codes "..") (s ∷ up) ++ down))

-- The steps of a cleaned path that filepath.Rel leads to. "." counts as one.
abbrev pub target_steps : Bytes → List Bytes
target_steps target = if target == codes "." then target ∷ [] else steps target

-- filepath.Rel(base, target), for cleaned paths; none for its error
unfoldable pub rel_cleaned : Bytes → Bytes → Option Bytes
unfolding apart between is_rooted steps_of split
rel_cleaned base target =
    let (up, down) = apart (steps base) (target_steps target) in
    if base == target
    then some (codes ".")
    else if is_rooted base
    then (if is_rooted target then between up down else none)
    else if is_rooted target
    then none
    else between up down

-- filepath.Rel(base, target)
unfoldable pub rel : Bytes → Bytes → Option Bytes
unfolding rel_cleaned clean
rel base target = rel_cleaned (clean base) (clean target)
