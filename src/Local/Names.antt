-- ===== src/Local/Names.antt =====
-- The paths that sanitizePath accepts.
use mathlib.Core.Path.{subst}
use pot_play_storage.Prelude.{
  ℕ, ◌≡◌, ◌≢◌, refl, sym, ap, ◌∙◌, ◌⊎◌, inl, inr, Bool, true, false, List, [], ◌∷◌, Bytes, codes,
  nat_eq, All, arith, Bool-cases,
}
use pot_play_storage.Strings.{has_prefix, contains, trim_prefix}
use pot_play_storage.Strings.Laws.{has_prefix-contains}
use pot_play_storage.Paths.{onto_first, split, join_segments, is_rooted, render, clean, steps}
use pot_play_storage.Paths.Segments.{split-first}
use pot_play_storage.Paths.Places.{
  is_rooted-join_segments, is_rooted-render, cleaned, cleaned-IsStep,
}
use pot_play_storage.Paths.Relative.{steps-render}
use pot_play_storage.Local.{clean_path}

-- The first segment is where a text begins.
first_prefix : (s x : Bytes) (xs : List Bytes) → split s ≡ x ∷ xs → has_prefix s x ≡ true
unfolding split onto_first has_prefix
first_prefix [] x xs e = ground arith
first_prefix (c ∷ s) x xs e =
    let (y, ys, f) = split-first s in ground (arith, first_prefix s y ys f)

split-other :
    (c : ℕ) (s x : Bytes) (xs : List Bytes)
    → nat_eq c b'/' ≡ false
    → split s ≡ x ∷ xs
    → split (c ∷ s) ≡ (c ∷ x) ∷ xs
unfolding split onto_first
split-other c s x xs other e = ground arith

not_up :
    (s x : Bytes) (xs : List Bytes)
    → contains s (codes "..") ≡ false
    → split s ≡ x ∷ xs
    → x ≢ codes ".."
not_up s x xs h e up =
    let there = subst (λ (t : Bytes). has_prefix s t ≡ true) up (first_prefix s x xs e) in
    let found = has_prefix-contains s (codes "..") there in absurd (ground arith)

-- A text without ".." has no segment "..".
pub contains-split :
    (s : Bytes) → contains s (codes "..") ≡ false → All (λ x. x ≢ codes "..") (split s)
unfolding contains split has_prefix
contains-split [] h = ((λ e. ground arith), tt)
contains-split (c ∷ s) h =
    let (x, xs, e) = split-first s in
    let rest = contains-split s (ground arith) in
    elim (Bool-cases (nat_eq c b'/')) [
      | inl slash ↦ rw (slash, split) ((λ e. ground arith), rest)
      | inr other ↦
          let whole = split-other c s x xs other e in
          subst (All (λ x. x ≢ codes "..")) (sym whole)
            (not_up (c ∷ s) (c ∷ x) xs h whole, (subst (All (λ x. x ≢ codes "..")) e rest).1)
    ]

pub trim_prefix-relative : (s : Bytes) → is_rooted s ≡ false → trim_prefix s (codes "/") ≡ s
unfolding trim_prefix has_prefix is_rooted
trim_prefix-relative [] h = refl
trim_prefix-relative (c ∷ s) h = ground arith

-- What is left of a path when it is cleaned and its leading slash is gone.
abbrev CleanPath : Bytes → Type 0
CleanPath p =
    ((is_rooted p ≡ true) × (clean_path p ≡ join_segments (cleaned p)))
    ⊎ ((is_rooted p ≡ false) × (clean_path p ≡ render false (cleaned p)))

clean_as :
    (p : Bytes) (r : Bool)
    → is_rooted p ≡ r
    → clean_path p ≡ trim_prefix (render r (cleaned p)) (codes "/")
unfolding clean
clean_as p r e = ap (λ (b : Bool). trim_prefix (render b (cleaned p)) (codes "/")) e

CleanPath-cases : (p : Bytes) → CleanPath p
unfolding render trim_prefix has_prefix
CleanPath-cases p = elim (Bool-cases (is_rooted p)) [
  | inl rooted ↦ inl (rooted, clean_as p true rooted)
  | inr relative ↦ inr (
    relative,
    clean_as p false relative
        ∙ trim_prefix-relative (render false (cleaned p))
            (is_rooted-render false (cleaned p) (cleaned-IsStep p)),
  )
]

pub clean_path-relative : (p : Bytes) → is_rooted (clean_path p) ≡ false
clean_path-relative p = elim (CleanPath-cases p) [
  | inl (rooted, e) ↦ ap is_rooted e ∙ is_rooted-join_segments (cleaned p) (cleaned-IsStep p)
  | inr (relative, e) ↦ ap is_rooted e ∙ is_rooted-render false (cleaned p) (cleaned-IsStep p)
]

-- A path that cleaning leaves as it is is the text of its steps.
pub clean_path-steps : (p : Bytes) → clean_path p ≡ p → p ≡ render false (steps p)
clean_path-steps p same = elim (CleanPath-cases p) [
  | inl (rooted, e) ↦
      let clash : true ≡ false = sym rooted ∙ ap is_rooted (sym same) ∙ clean_path-relative p in
      absurd (ground arith)
  | inr (relative, e) ↦
      let shown = sym same ∙ e in
      shown
      ∙ ap (render false) (sym (ap steps shown ∙ steps-render false (cleaned p) (cleaned-IsStep p)))
]
