-- ===== src/Paths/Places.antt =====
-- Where a cleaned path, a joined path and an absolute path lead.
use mathlib.Core.List.{reverse, reverse-reverse}
use pot_play_storage.Prelude.{
  ℕ, ◌≡◌, refl, sym, ap, ◌∙◌, inl, inr, Bool, true, false, List, [], ◌∷◌, ◌++◌, Bytes,
  Bytes-discrete, nat_eq, if◌then◌else◌, All, arith, Bool-cases, append-nil,
}
use pot_play_storage.Paths.{
  split, join_segments, is_rooted, step, walk, render, clean, join, abs, steps_of, place,
}
use pot_play_storage.Paths.Laws.{
  walk-append, walk-IsStep, walk-IsPlain, walk-plain, walk-clean, All-reverse,
}
use pot_play_storage.Paths.Segments.{
  NoSlash, IsStep, IsPlain, split-NoSlash, split-append, split-join_segments,
}

pub All-map {ℓ κ κ'} :
    {A : Type ℓ} (P : A → Type κ) (Q : A → Type κ')
    → ((a : A) → P a → Q a)
    → (xs : List A) → All P xs
    → All Q xs
All-map P Q f [] h = tt
All-map P Q f (x ∷ xs) h = (f x h.0, All-map P Q f xs h.1)

-- Walking a cleaned text is walking its segments.
pub walk-render :
    (q r : Bool) (base segments : List Bytes)
    → All IsStep segments
    → walk q base (split (render r segments)) ≡ walk q base segments
unfolding render split walk step Bytes-discrete join_segments
walk-render q true base [] h = refl
walk-render q true base (x ∷ xs) h =
    ap (walk q base) (split-join_segments x xs (All-map IsStep NoSlash (λ s k. k.0) (x ∷ xs) h))
walk-render q false base [] h = refl
walk-render q false base (x ∷ xs) h =
    ap (walk q base) (split-join_segments x xs (All-map IsStep NoSlash (λ s k. k.0) (x ∷ xs) h))

pub is_rooted-join_segments :
    (segments : List Bytes) → All IsStep segments → is_rooted (join_segments segments) ≡ false
unfolding is_rooted join_segments Bytes-discrete
is_rooted-join_segments [] h = refl
is_rooted-join_segments ([] ∷ xs) h = absurd (ground arith)
is_rooted-join_segments ((c ∷ x) ∷ []) h = ground arith
is_rooted-join_segments ((c ∷ x) ∷ y ∷ xs) h = ground arith

pub is_rooted-render :
    (r : Bool) (segments : List Bytes) → All IsStep segments → is_rooted (render r segments) ≡ r
unfolding render is_rooted Bytes-discrete
is_rooted-render true segments h = refl
is_rooted-render false [] h = refl
is_rooted-render false (x ∷ xs) h = is_rooted-join_segments (x ∷ xs) h

abbrev pub cleaned : Bytes → List Bytes
cleaned p = reverse (walk (is_rooted p) [] (split p))

pub cleaned-IsStep : (p : Bytes) → All IsStep (cleaned p)
cleaned-IsStep p =
    All-reverse IsStep _ (walk-IsStep (is_rooted p) [] (split p) tt (split-NoSlash p))

pub is_rooted-clean : (p : Bytes) → is_rooted (clean p) ≡ is_rooted p
unfolding clean
is_rooted-clean p = is_rooted-render (is_rooted p) (cleaned p) (cleaned-IsStep p)

-- The steps of a plain walk are its segments.
pub steps_of-plain : (xs : List Bytes) → All IsStep xs → steps_of xs ≡ xs
unfolding steps_of
steps_of-plain [] h = refl
steps_of-plain (x ∷ xs) h = ground (arith, steps_of-plain xs h.1)

-- A path from the root is walked again from its cleaned segments.
pub walk-again : (stack : List Bytes) → All IsPlain stack → walk true [] (reverse stack) ≡ stack
walk-again stack h =
    let plain = All-reverse IsPlain stack h in
    walk-plain true [] (reverse stack) (All-map IsPlain _ (λ s k. k.1) (reverse stack) plain)
    ∙ append-nil (reverse (steps_of (reverse stack)))
    ∙ ap reverse
        (steps_of-plain (reverse stack) (All-map IsPlain IsStep (λ s k. k.0) (reverse stack) plain))
    ∙ reverse-reverse stack

-- A rooted walk does not depend on the directory.
abbrev from : Bytes → Bool → List Bytes
from d rooted = if rooted then [] else walk true [] (split d)

place-rooted :
    (d p : Bytes) (r : Bool) → is_rooted p ≡ r → place d p ≡ walk true (from d r) (split p)
place-rooted d p r e = ap (λ (b : Bool). walk true (from d b) (split p)) e

pub clean_as :
    (p : Bytes) (r : Bool) → is_rooted p ≡ r → clean p ≡ render r (reverse (walk r [] (split p)))
unfolding clean
clean_as p r e = ap (λ (b : Bool). render b (reverse (walk b [] (split p)))) e

walked-IsStep : (p : Bytes) (r : Bool) → All IsStep (reverse (walk r [] (split p)))
walked-IsStep p r = All-reverse IsStep _ (walk-IsStep r [] (split p) tt (split-NoSlash p))

-- Cleaning a path does not change where it leads.
pub place-clean : (d p : Bytes) → place d (clean p) ≡ place d p
unfolding walk
place-clean d p = elim (Bool-cases (is_rooted p)) [
  | inl rooted ↦
      place-rooted d (clean p) true (is_rooted-clean p ∙ rooted)
      ∙ ap (λ (x : Bytes). walk true [] (split x)) (clean_as p true rooted)
      ∙ walk-render true true [] (reverse (walk true [] (split p))) (walked-IsStep p true)
      ∙ walk-again (walk true [] (split p)) (walk-IsPlain [] (split p) tt (split-NoSlash p))
      ∙ sym (place-rooted d p true rooted)
  | inr relative ↦
      let start = walk true [] (split d) in
      place-rooted d (clean p) false (is_rooted-clean p ∙ relative)
      ∙ ap (λ (x : Bytes). walk true start (split x)) (clean_as p false relative)
      ∙ walk-render true false start (reverse (walk false [] (split p))) (walked-IsStep p false)
      ∙ walk-clean true start [] (split p) tt (split-NoSlash p)
      ∙ sym (place-rooted d p false relative)
]

place-empty : (d : Bytes) → place d [] ≡ walk true [] (split d)
unfolding walk split step is_rooted Bytes-discrete
place-empty d = refl

walk-empty : (base : List Bytes) → walk true base (split []) ≡ base
unfolding walk split step Bytes-discrete
walk-empty base = refl

place-slash :
    (d : Bytes) (c : ℕ) (a b : Bytes)
    → place d (c ∷ a ++ (b'/' ∷ b)) ≡ walk true (place d (c ∷ a)) (split b)
unfolding is_rooted
place-slash d c a b =
    let base = from d (nat_eq c b'/') in
    ap (walk true base) (split-append (c ∷ a) b) ∙ walk-append true base (split (c ∷ a)) (split b)

-- A joined path leads where the second path leads from the first.
pub place-join :
    (d a b : Bytes) → is_rooted b ≡ false → place d (join a b) ≡ walk true (place d a) (split b)
unfolding join
place-join d [] [] relative = sym (walk-empty (place d []))
place-join d [] (c ∷ b) relative =
    place-clean d (c ∷ b)
    ∙ place-rooted d (c ∷ b) false relative
    ∙ ap (λ (t : List Bytes). walk true t (split (c ∷ b))) (sym (place-empty d))
place-join d (c ∷ a) b relative = place-clean d (c ∷ a ++ (b'/' ∷ b)) ∙ place-slash d c a b

abs-rooted : (d p : Bytes) → is_rooted p ≡ true → abs d p ≡ clean p
unfolding abs
abs-rooted d p rooted = ground arith

abs-relative : (d p : Bytes) → is_rooted p ≡ false → abs d p ≡ join d p
unfolding abs
abs-relative d p relative = ground arith

join-rooted :
    (d p : Bytes)
    → is_rooted d ≡ true
    → join d p ≡ render true (reverse (walk true (walk true [] (split d)) (split p)))
unfolding join is_rooted
join-rooted [] p rooted = absurd (ground arith)
join-rooted (c ∷ d) p rooted =
    clean_as (c ∷ d ++ (b'/' ∷ p)) true rooted
    ∙ ap (λ (t : List Bytes). render true (reverse t))
        (ap (walk true []) (split-append (c ∷ d) p) ∙ walk-append true [] (split (c ∷ d)) (split p))

-- The text of an absolute path shows its place.
pub abs-place : (d p : Bytes) → is_rooted d ≡ true → abs d p ≡ render true (reverse (place d p))
abs-place d p rooted = elim (Bool-cases (is_rooted p)) [
  | inl absolute ↦
      abs-rooted d p absolute
      ∙ clean_as p true absolute
      ∙ ap (λ (t : List Bytes). render true (reverse t)) (sym (place-rooted d p true absolute))
  | inr relative ↦
      abs-relative d p relative
      ∙ join-rooted d p rooted
      ∙ ap (λ (t : List Bytes). render true (reverse t)) (sym (place-rooted d p false relative))
]
