-- ===== src/Paths/Segments.antt =====
-- Splitting a path at its slashes and joining its segments.
use pot_play_storage.Prelude.{
  ℕ, ◌≡◌, ◌≢◌, refl, sym, ap, ◌∙◌, inl, inr, false, List, [], ◌∷◌, ◌++◌, Bytes, codes, nat_eq, All,
  arith, Bool-cases,
}
use pot_play_storage.Paths.{onto_first, split, join_segments, is_idle}

-- A segment: it has no slash.
abbrev pub NoSlash : Bytes → Type 0
NoSlash = All (λ c. c ≢ b'/')

-- A step: it is not empty and not ".".
abbrev pub IsStep : Bytes → Type 0
IsStep s = NoSlash s × (is_idle s ≡ false)

-- A step that does not go back.
abbrev pub IsPlain : Bytes → Type 0
IsPlain s = IsStep s × (s ≢ codes "..")

pub onto_first-NoSlash :
    (c : ℕ) (xs : List Bytes) → c ≢ b'/' → All NoSlash xs → All NoSlash (onto_first c xs)
unfolding onto_first
onto_first-NoSlash c [] n h = ((n, tt), tt)
onto_first-NoSlash c (x ∷ xs) n h = ((n, h.0), h.1)

pub split-NoSlash : (p : Bytes) → All NoSlash (split p)
unfolding split
split-NoSlash [] = (tt, tt)
split-NoSlash (c ∷ p) = elim (Bool-cases (nat_eq c b'/')) [
  | inl slash ↦ rw (slash, split) (tt, split-NoSlash p)
  | inr other ↦ rw (other, split) (onto_first-NoSlash c (split p) (ground arith) (split-NoSlash p))
]

pub split-cons : (s : Bytes) (p : Bytes) → NoSlash s → split (s ++ (b'/' ∷ p)) ≡ s ∷ split p
unfolding split onto_first
split-cons [] p h = refl
split-cons (c ∷ s) p h = ground (arith, split-cons s p h.1)

pub split-whole : (s : Bytes) → NoSlash s → split s ≡ s ∷ []
unfolding split onto_first
split-whole [] h = refl
split-whole (c ∷ s) h = ground (arith, split-whole s h.1)

-- A text has a first segment.
pub split-first : (s : Bytes) → (x : Bytes) × (xs : List Bytes) × (split s ≡ x ∷ xs)
unfolding split onto_first
split-first [] = ([], [], refl)
split-first (c ∷ s) =
    let (x, xs, e) = split-first s in
    elim (Bool-cases (nat_eq c b'/')) [
      | inl slash ↦ ([], split s, rw (slash, split) refl)
      | inr other ↦ (c ∷ x, xs, ground arith)
    ]

pub split-append : (a b : Bytes) → split (a ++ (b'/' ∷ b)) ≡ split a ++ split b
unfolding split onto_first
split-append [] b = refl
split-append (c ∷ a) b = let (x, xs, e) = split-first a in ground (arith, split-append a b)

pub split-join_segments :
    (x : Bytes) (xs : List Bytes) → All NoSlash (x ∷ xs) → split (join_segments (x ∷ xs)) ≡ x ∷ xs
unfolding join_segments
split-join_segments x [] h = split-whole x h.0
split-join_segments x (y ∷ xs) h =
    split-cons x (join_segments (y ∷ xs)) h.0
    ∙ ap (λ (t : List Bytes). x ∷ t) (split-join_segments y xs h.1)

pub join-onto_first :
    (c : ℕ) (xs : List Bytes) → join_segments (onto_first c xs) ≡ c ∷ join_segments xs
unfolding onto_first join_segments
join-onto_first c [] = refl
join-onto_first c (x ∷ []) = refl
join-onto_first c (x ∷ y ∷ xs) = refl

pub join_segments-split : (s : Bytes) → join_segments (split s) ≡ s
unfolding split onto_first join_segments
join_segments-split [] = refl
join_segments-split (c ∷ s) =
    let (x, xs, e) = split-first s in
    let whole = join_segments-split s in
    elim (Bool-cases (nat_eq c b'/')) [
      | inl slash ↦
          let at : b'/' ≡ c = ground arith in
          rw (slash, split)
            (ap (λ (t : List Bytes). join_segments ([] ∷ t)) e
              ∙ ap (λ (t : Bytes). b'/' ∷ t) (ap join_segments (sym e) ∙ whole)
              ∙ ap (λ (b : ℕ). b ∷ s) at)
      | inr other ↦
          rw (other, split) (join-onto_first c (split s) ∙ ap (λ (t : Bytes). c ∷ t) whole)
    ]
