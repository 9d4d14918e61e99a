-- ===== src/Paths/Relative.antt =====
-- filepath.Rel from a directory to a path below it.
use mathlib.Core.List.{reverse, reverse-append, reverse-reverse}
use pot_play_storage.Prelude.{
  ◌≡◌, ◌≢◌, refl, sym, ap, ◌∙◌, inl, inr, Bool, true, false, List, [], ◌∷◌, ◌++◌, some, Bytes,
  Bytes-discrete, codes, ◌==◌, ==_iff, All, All-append, arith, Bool-cases, append-nil,
}
use pot_play_storage.Paths.{
  split, join_segments, is_rooted, is_idle, step, walk, render, clean, join, steps_of, steps, apart,
  between, target_steps, rel_cleaned, rel,
}
use pot_play_storage.Paths.Segments.{
  NoSlash, IsStep, split-NoSlash, split-append, split-join_segments,
}
use pot_play_storage.Paths.Laws.{
  walk-append, walk-IsStep, walk-IsPlain, All-reverse, walk-plain, walk-clean,
}
use pot_play_storage.Paths.Places.{
  All-map, cleaned, cleaned-IsStep, is_rooted-render, is_rooted-clean, steps_of-plain, walk-render,
  walk-again, clean_as,
}

-- A relative path that does not go back.
abbrev pub IsDown : Bytes → Type 0
IsDown c = (is_rooted c ≡ false) × All (λ x. x ≢ codes "..") (split c)

abbrev cleaned_of : Bool → List Bytes → List Bytes
cleaned_of r xs = reverse (walk r [] xs)

-- Cleaning twice is cleaning once.
cleaned-render :
    (r : Bool) (xs : List Bytes)
    → All NoSlash xs
    → cleaned_of r (split (render r (cleaned_of r xs))) ≡ cleaned_of r xs
unfolding walk
cleaned-render true xs h = ap reverse (
    walk-render true true [] (cleaned_of true xs)
      (All-reverse IsStep _ (walk-IsStep true [] xs tt h))
    ∙ walk-again (walk true [] xs) (walk-IsPlain [] xs tt h))
cleaned-render false xs h = ap reverse (
    walk-render false false [] (cleaned_of false xs)
      (All-reverse IsStep _ (walk-IsStep false [] xs tt h))
    ∙ walk-clean false [] [] xs tt h)

clean-clean : (p : Bytes) → clean (clean p) ≡ clean p
unfolding clean
clean-clean p =
    clean_as (clean p) (is_rooted p) (is_rooted-clean p)
    ∙ ap (render (is_rooted p)) (cleaned-render (is_rooted p) (split p) (split-NoSlash p))

joined-steps :
    (x : Bytes) (xs : List Bytes) → All IsStep (x ∷ xs) → steps (join_segments (x ∷ xs)) ≡ x ∷ xs
joined-steps x xs h =
    ap steps_of (split-join_segments x xs (All-map IsStep NoSlash (λ s k. k.0) (x ∷ xs) h))
    ∙ steps_of-plain (x ∷ xs) h

pub steps-render : (r : Bool) (xs : List Bytes) → All IsStep xs → steps (render r xs) ≡ xs
unfolding render split steps_of join_segments Bytes-discrete
steps-render true [] h = refl
steps-render false [] h = refl
steps-render true (x ∷ xs) h = joined-steps x xs h
steps-render false (x ∷ xs) h = joined-steps x xs h

apart-append : (xs ys : List Bytes) → apart xs (xs ++ ys) ≡ ([], ys)
unfolding apart
apart-append [] ys = refl
apart-append (x ∷ xs) ys = ground (arith, apart-append xs ys, (==_iff x x).1 refl)

-- The segments of a path down from a base, when cleaned.
cleaned-down :
    (r : Bool) (xs : List Bytes) (c : Bytes)
    → All (λ x. x ≢ codes "..") (split c)
    → cleaned_of r (xs ++ split c) ≡ cleaned_of r xs ++ steps c
cleaned-down r xs c h =
    ap reverse (walk-append r [] xs (split c) ∙ walk-plain r (walk r [] xs) (split c) h)
    ∙ reverse-append (reverse (steps c)) (walk r [] xs)
    ∙ ap (λ (t : List Bytes). cleaned_of r xs ++ t) (reverse-reverse (steps c))

clean-join :
    (base c : Bytes)
    → IsDown c
    → clean (join base c) ≡ render (is_rooted base) (cleaned base ++ steps c)
unfolding join is_rooted clean walk split render step steps_of Bytes-discrete
clean-join [] [] h = refl
clean-join [] (d ∷ c) h =
    clean-clean (d ∷ c)
    ∙ clean_as (d ∷ c) false h.0
    ∙ ap (λ (t : List Bytes). render false (reverse t)) (walk-plain false [] (split (d ∷ c)) h.1)
    ∙ ap (render false)
        (ap reverse (append-nil (reverse (steps (d ∷ c)))) ∙ reverse-reverse (steps (d ∷ c)))
clean-join (b ∷ a) c h =
    clean-clean (b ∷ a ++ (b'/' ∷ c))
    ∙ ap (λ (t : List Bytes). render (is_rooted (b ∷ a)) (cleaned_of (is_rooted (b ∷ a)) t))
        (split-append (b ∷ a) c)
    ∙ ap (render (is_rooted (b ∷ a))) (cleaned-down (is_rooted (b ∷ a)) (split (b ∷ a)) c h.1)

rel-apart :
    (b t : Bytes) (r : Bool) (xs ys : List Bytes)
    → is_rooted b ≡ r
    → is_rooted t ≡ r
    → (b == t) ≡ false
    → apart (steps b) (target_steps t) ≡ ([], ys)
    → rel_cleaned b t ≡ some (join_segments ys)
unfolding rel_cleaned between
rel-apart b t true xs ys hb ht n e = rw (n, hb, ht, e, rel_cleaned) refl
rel-apart b t false xs ys hb ht n e = rw (n, hb, ht, e, rel_cleaned) refl

longer : (xs : List Bytes) (y : Bytes) (ys : List Bytes) → xs ≢ xs ++ (y ∷ ys)
longer [] y ys e = ground arith
longer (x ∷ xs) y ys e = longer xs y ys (ground arith)

differ : (s t : Bytes) → s ≢ t → (s == t) ≡ false
differ s t n = elim (Bool-cases (s == t)) [
  | inl same ↦ absurd (n ((==_iff s t).0 same))
  | inr other ↦ other
]

no_steps : steps (codes ".") ≡ []
unfolding split steps_of Bytes-discrete
no_steps = refl

some_step : (xs : List Bytes) (y : Bytes) (ys : List Bytes) → xs ++ (y ∷ ys) ≢ []
some_step [] y ys e = ground arith
some_step (x ∷ xs) y ys e = ground arith

-- A path with a step is not ".".
target_steps-named :
    (t : Bytes) (xs : List Bytes) (y : Bytes) (ys : List Bytes)
    → steps t ≡ xs ++ (y ∷ ys)
    → target_steps t ≡ xs ++ (y ∷ ys)
target_steps-named t xs y ys e =
    rw (differ t (codes ".") (λ d. some_step xs y ys (sym e ∙ ap steps d ∙ no_steps))) e

rel-below :
    (r : Bool) (xs ys : List Bytes)
    → All IsStep xs
    → All IsStep ys
    → rel_cleaned (render r xs) (render r (xs ++ ys)) ≡ some (render false ys)
unfolding rel_cleaned render
rel-below r xs [] hx hy = ground (arith, append-nil xs, (==_iff (render r xs) (render r xs)).1 refl)
rel-below r xs (y ∷ ys) hx hy =
    let whole = All-append IsStep xs (y ∷ ys) hx hy in
    let shown = steps-render r xs hx in
    let target = steps-render r (xs ++ (y ∷ ys)) whole in
    rel-apart (render r xs) (render r (xs ++ (y ∷ ys))) r xs (y ∷ ys) (is_rooted-render r xs hx)
      (is_rooted-render r (xs ++ (y ∷ ys)) whole)
      (differ (render r xs) (render r (xs ++ (y ∷ ys)))
        (λ e. longer xs y ys (sym shown ∙ ap steps e ∙ target)))
      (ap (λ (u : List Bytes). apart u (target_steps (render r (xs ++ (y ∷ ys))))) shown
        ∙ ap (apart xs) (target_steps-named (render r (xs ++ (y ∷ ys))) xs y ys target)
        ∙ apart-append xs (y ∷ ys))

steps_of-IsStep : (xs : List Bytes) → All NoSlash xs → All IsStep (steps_of xs)
unfolding steps_of
steps_of-IsStep [] h = tt
steps_of-IsStep (x ∷ xs) h = elim (Bool-cases (is_idle x)) [
  | inl idle ↦ rw (idle, steps_of) (steps_of-IsStep xs h.1)
  | inr real ↦ rw (real, steps_of) ((h.0, real), steps_of-IsStep xs h.1)
]

pub steps-IsStep : (p : Bytes) → All IsStep (steps p)
steps-IsStep p = steps_of-IsStep (split p) (split-NoSlash p)

pub steps_of-All {κ} : (P : Bytes → Type κ) (xs : List Bytes) → All P xs → All P (steps_of xs)
unfolding steps_of
steps_of-All P [] h = tt
steps_of-All P (x ∷ xs) h = elim (Bool-cases (is_idle x)) [
  | inl idle ↦ rw (idle, steps_of) (steps_of-All P xs h.1)
  | inr real ↦ rw (real, steps_of) (h.0, steps_of-All P xs h.1)
]

-- From a base to a path down from it: the steps of the path.
pub rel-join : (base c : Bytes) → IsDown c → rel base (join base c) ≡ some (render false (steps c))
unfolding rel clean
rel-join base c h =
    ap (rel_cleaned (clean base)) (clean-join base c h)
    ∙ rel-below (is_rooted base) (cleaned base) (steps c) (cleaned-IsStep base) (steps-IsStep c)
