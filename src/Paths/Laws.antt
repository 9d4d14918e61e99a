-- ===== src/Paths/Laws.antt =====
-- Laws of paths: cleaning a path does not change where it leads.
use mathlib.Core.List.{reverse, reverse-cons}
use mathlib.Core.Path.{subst}
use pot_play_storage.Prelude.{
  ◌≡◌, ◌≢◌, refl, sym, ap, ◌∙◌, ◌⊎◌, inl, inr, Bool, true, false, List, [], ◌∷◌, ◌++◌, Bytes,
  Bytes-discrete, codes, ◌==◌, ==_iff, All, All-append, arith, Bool-cases, append_assoc,
}
use pot_play_storage.Paths.{back, is_idle, step, walk, steps_of}
use pot_play_storage.Paths.Segments.{NoSlash, IsStep, IsPlain}

pub walk-append :
    (r : Bool) (stack xs ys : List Bytes) → walk r stack (xs ++ ys) ≡ walk r (walk r stack xs) ys
unfolding walk
walk-append r stack [] ys = refl
walk-append r stack (x ∷ xs) ys = walk-append r (step r stack x) xs ys

pub All-reverse {ℓ κ} : {A : Type ℓ} (P : A → Type κ) (xs : List A) → All P xs → All P (reverse xs)
All-reverse P [] h = tt
All-reverse P (x ∷ xs) h =
    subst (All P) (sym (reverse-cons x xs))
      (All-append P (reverse xs) (x ∷ []) (All-reverse P xs h.1) (h.0, tt))

-- What one segment does.
abbrev StepCases : Bytes → Type 0
StepCases s = (is_idle s ≡ true) ⊎ (s ≡ codes "..") ⊎ ((is_idle s ≡ false) × (s ≢ codes ".."))

step_cases : (s : Bytes) → StepCases s
step_cases s = elim (Bool-cases (is_idle s)) [
  | inl idle ↦ inl idle
  | inr real ↦ elim (Bool-cases (s == codes "..")) [
    | inl up ↦ inr (inl ((==_iff s (codes "..")).0 up))
    | inr down ↦ inr (inr (real, λ e. ground (arith, ==_iff s (codes ".."))))
  ]
]

up-is_idle : is_idle (codes "..") ≡ false
unfolding Bytes-discrete
up-is_idle = refl

step-idle : (r : Bool) (stack : List Bytes) (s : Bytes) → is_idle s ≡ true → step r stack s ≡ stack
unfolding step
step-idle r stack s h = ground arith

step-up : (r : Bool) (stack : List Bytes) → step r stack (codes "..") ≡ back r stack
unfolding step Bytes-discrete
step-up r stack = refl

pub step-name :
    (r : Bool) (stack : List Bytes) (s : Bytes)
    → is_idle s ≡ false
    → s ≢ codes ".."
    → step r stack s ≡ s ∷ stack
unfolding step
step-name r stack s h n = ground arith

back-name :
    (r : Bool) (top : Bytes) (rest : List Bytes) → top ≢ codes ".." → back r (top ∷ rest) ≡ rest
unfolding back
back-name r top rest n = ground arith

back-up :
    (r : Bool) (rest : List Bytes) → back r (codes ".." ∷ rest) ≡ codes ".." ∷ codes ".." ∷ rest
unfolding back Bytes-discrete
back-up r rest = refl

up-IsStep : IsStep (codes "..")
up-IsStep = (ground arith, up-is_idle)

back-IsStep : (r : Bool) (stack : List Bytes) → All IsStep stack → All IsStep (back r stack)
unfolding back
back-IsStep true [] h = tt
back-IsStep false [] h = (up-IsStep, tt)
back-IsStep r (top ∷ rest) h = elim (Bool-cases (top == codes "..")) [
  | inl up ↦ rw (up, back) (up-IsStep, h)
  | inr down ↦ rw (down, back) h.1
]

step-IsStep :
    (r : Bool) (stack : List Bytes) (s : Bytes)
    → All IsStep stack
    → NoSlash s
    → All IsStep (step r stack s)
step-IsStep r stack s h n = elim (step_cases s) [
  | inl idle ↦ subst (All IsStep) (sym (step-idle r stack s idle)) h
  | inr (inl e) ↦
      subst (λ (x : Bytes). All IsStep (step r stack x)) (sym e)
        (subst (All IsStep) (sym (step-up r stack)) (back-IsStep r stack h))
  | inr (inr (real, down)) ↦ subst (All IsStep) (sym (step-name r stack s real down)) ((n, real), h)
]

-- What a walk keeps are steps.
pub walk-IsStep :
    (r : Bool) (stack xs : List Bytes)
    → All IsStep stack
    → All NoSlash xs
    → All IsStep (walk r stack xs)
unfolding walk
walk-IsStep r stack [] h n = h
walk-IsStep r stack (x ∷ xs) h n =
    walk-IsStep r (step r stack x) xs (step-IsStep r stack x h n.0) n.1

back-IsPlain : (stack : List Bytes) → All IsPlain stack → All IsPlain (back true stack)
unfolding back
back-IsPlain [] h = tt
back-IsPlain (top ∷ rest) h = subst (All IsPlain) (sym (back-name true top rest h.0.1)) h.1

step-IsPlain :
    (stack : List Bytes) (s : Bytes)
    → All IsPlain stack
    → NoSlash s
    → All IsPlain (step true stack s)
step-IsPlain stack s h n = elim (step_cases s) [
  | inl idle ↦ subst (All IsPlain) (sym (step-idle true stack s idle)) h
  | inr (inl e) ↦
      subst (λ (x : Bytes). All IsPlain (step true stack x)) (sym e)
        (subst (All IsPlain) (sym (step-up true stack)) (back-IsPlain stack h))
  | inr (inr (real, down)) ↦
      subst (All IsPlain) (sym (step-name true stack s real down)) (((n, real), down), h)
]

-- A walk from the root keeps no "..".
pub walk-IsPlain :
    (stack xs : List Bytes) → All IsPlain stack → All NoSlash xs → All IsPlain (walk true stack xs)
unfolding walk
walk-IsPlain stack [] h n = h
walk-IsPlain stack (x ∷ xs) h n =
    walk-IsPlain (step true stack x) xs (step-IsPlain stack x h n.0) n.1

steps-idle : (x : Bytes) (xs : List Bytes) → is_idle x ≡ true → steps_of (x ∷ xs) ≡ steps_of xs
unfolding steps_of
steps-idle x xs h = ground arith

steps-real : (x : Bytes) (xs : List Bytes) → is_idle x ≡ false → steps_of (x ∷ xs) ≡ x ∷ steps_of xs
unfolding steps_of
steps-real x xs h = ground arith

-- Segments that do not go back are walked one by one.
pub walk-plain :
    (r : Bool) (stack xs : List Bytes)
    → All (λ s. s ≢ codes "..") xs
    → walk r stack xs ≡ reverse (steps_of xs) ++ stack
unfolding walk steps_of
walk-plain r stack [] h = refl
walk-plain r stack (x ∷ xs) h = elim (Bool-cases (is_idle x)) [
  | inl idle ↦
      ap (λ (u : List Bytes). walk r u xs) (step-idle r stack x idle)
      ∙ walk-plain r stack xs h.1
      ∙ ap (λ (u : List Bytes). reverse u ++ stack) (sym (steps-idle x xs idle))
  | inr real ↦
      ap (λ (u : List Bytes). walk r u xs) (step-name r stack x real h.0)
      ∙ walk-plain r (x ∷ stack) xs h.1
      ∙ sym (append_assoc (reverse (steps_of xs)) (x ∷ []) stack)
      ∙ ap (λ (u : List Bytes). u ++ stack) (sym (reverse-cons x (steps_of xs)))
      ∙ ap (λ (u : List Bytes). reverse u ++ stack) (sym (steps-real x xs real))
]

walk-push :
    (r : Bool) (base stack : List Bytes) (s : Bytes)
    → walk r base (reverse (s ∷ stack)) ≡ step r (walk r base (reverse stack)) s
unfolding walk
walk-push r base stack s =
    ap (walk r base) (reverse-cons s stack) ∙ walk-append r base (reverse stack) (s ∷ [])

walk-back :
    (r : Bool) (base stack : List Bytes)
    → All IsStep stack
    → walk r base (reverse (back false stack)) ≡ back r (walk r base (reverse stack))
unfolding walk back
walk-back r base [] h = step-up r base
walk-back r base (top ∷ rest) h = elim (Bool-cases (top == codes "..")) [
  | inl up ↦ rw (up, back) (walk-push r base (top ∷ rest) (codes "..") ∙ step-up r _)
  | inr down ↦
      rw (down, back)
        (let other : top ≢ codes ".." = λ e. ground (arith, ==_iff top (codes "..")) in
          sym (
            ap (back r)
              (walk-push r base rest top ∙ step-name r (walk r base (reverse rest)) top h.0.1 other)
            ∙ back-name r top (walk r base (reverse rest)) other))
]

-- A step on from where a path leads.
walk-step :
    (r : Bool) (base stack : List Bytes) (s : Bytes)
    → All IsStep stack
    → walk r base (reverse (step false stack s)) ≡ step r (walk r base (reverse stack)) s
walk-step r base stack s h = elim (step_cases s) [
  | inl idle ↦
      ap (λ (t : List Bytes). walk r base (reverse t)) (step-idle false stack s idle)
      ∙ sym (step-idle r (walk r base (reverse stack)) s idle)
  | inr (inl e) ↦
      subst
        (λ (x : Bytes).
          walk r base (reverse (step false stack x)) ≡ step r (walk r base (reverse stack)) x)
        (sym e)
        (ap (λ (t : List Bytes). walk r base (reverse t)) (step-up false stack)
          ∙ walk-back r base stack h
          ∙ sym (step-up r (walk r base (reverse stack))))
  | inr (inr (real, down)) ↦
      ap (λ (t : List Bytes). walk r base (reverse t)) (step-name false stack s real down)
      ∙ walk-push r base stack s
]

-- A relative path leads where its cleaned segments lead.
pub walk-clean :
    (r : Bool) (base stack xs : List Bytes)
    → All IsStep stack
    → All NoSlash xs
    → walk r base (reverse (walk false stack xs)) ≡ walk r (walk r base (reverse stack)) xs
unfolding walk
walk-clean r base stack [] h n = refl
walk-clean r base stack (x ∷ xs) h n =
    walk-clean r base (step false stack x) xs (step-IsStep false stack x h n.0) n.1
    ∙ ap (λ (t : List Bytes). walk r t xs) (walk-step r base stack x h)
