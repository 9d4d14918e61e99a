-- ===== src/Strings/Laws.antt =====
-- Laws of the string functions.
use native.Mathlib.Nat.{add-sub_cancel}
use pot_play_storage.Prelude.{
  ℕ, ◌-◌, ◌≤◌, ◌≡◌, refl, sym, ◌≢◌, Bool, true, false, [], ◌∷◌, ◌++◌, Bytes, length, drop, any, All,
  take-append-drop, nat_eq, arith, if◌then◌else◌, append-nil, append_assoc, ◌∙◌, length-append,
  ==_iff, Bool-cases, inl, inr, ap, suc, All-take,
}
use mathlib.Core.Path.{subst}
use pot_play_storage.Strings.{
  in_set, cut_last, has_prefix, has_suffix, contains, trim_suffix, trim_left, trim_right, trim, ext,
  ext_from,
}

-- A text holds a single byte exactly when one of its bytes is that.
pub contains-byte : (s : Bytes) (b : ℕ) → contains s (b ∷ []) ≡ any (nat_eq b) s
unfolding contains
contains-byte [] b = refl
contains-byte (c ∷ s) b = ground (arith, contains-byte s b)

-- A text without a byte that the search text begins with does not contain it.
pub any-false-All : (b : ℕ) (s : Bytes) → any (nat_eq b) s ≡ false → All (λ c. c ≢ b) s
any-false-All b [] h = tt
any-false-All b (c ∷ s) h = (λ e. ground arith, any-false-All b s (ground arith))

pub All-any-false : (b : ℕ) (s : Bytes) → All (λ c. c ≢ b) s → any (nat_eq b) s ≡ false
All-any-false b [] h = refl
All-any-false b (c ∷ s) h = ground (arith, All-any-false b s h.1)

-- A suffix is cut off whole, and what is left is a prefix.
pub trim_suffix-append : (s p : Bytes) → has_suffix s p ≡ true → trim_suffix s p ++ p ≡ s
unfolding trim_suffix
trim_suffix-append s p h = ground (arith, take-append-drop (length s - length p) s)

pub length-trim_left : (s cutset : Bytes) → length (trim_left s cutset) ≤ length s
unfolding trim_left
length-trim_left [] cutset = omega arith
length-trim_left (c ∷ s) cutset = ground (arith, length-trim_left s cutset)

length-cut_last :
    (cutset : Bytes) (c : ℕ) (s : Bytes) → length (cut_last cutset c s) ≤ suc (length s)
unfolding cut_last
length-cut_last cutset c [] = ground arith
length-cut_last cutset c (d ∷ s) = omega arith

pub length-trim_right : (s cutset : Bytes) → length (trim_right s cutset) ≤ length s
unfolding trim_right
length-trim_right [] cutset = omega arith
length-trim_right (c ∷ s) cutset =
    omega (arith, length-cut_last cutset c (trim_right s cutset), length-trim_right s cutset)

pub length-trim : (s cutset : Bytes) → length (trim s cutset) ≤ length s
unfolding trim
length-trim s cutset =
    omega (arith, length-trim_left s cutset, length-trim_right (trim_left s cutset) cutset)

-- The extension is a suffix of the name.
abbrev pub IsTail : Bytes → Bytes → Type 0
IsTail s t = (p : Bytes) × (s ≡ p ++ t)

ext_from-IsTail :
    (s found : Bytes) {whole : Bytes} (pre : Bytes)
    → whole ≡ pre ++ s
    → IsTail whole found
    → IsTail whole (ext_from s found)
unfolding ext_from
ext_from-IsTail [] found pre e h = h
ext_from-IsTail (c ∷ s) found {whole} pre e h =
    ext_from-IsTail s _ (pre ++ c ∷ []) (e ∙ sym (append_assoc pre (c ∷ []) s))
      (step (nat_eq c b'/') (nat_eq c b'.'))
  where
    step : (slash dot : Bool) → IsTail whole (if slash then [] else if dot then c ∷ s else found)
    step true dot = (whole, sym (append-nil whole))
    step false true = (pre, e)
    step false false = h

pub ext-IsTail : (s : Bytes) → IsTail s (ext s)
unfolding ext
ext-IsTail s = ext_from-IsTail s [] [] refl (s, sym (append-nil s))

pub drop-append : (p t : Bytes) → drop (length p) (p ++ t) ≡ t
drop-append [] t = refl
drop-append (c ∷ p) t = drop-append p t

pub has_suffix-append : (p t : Bytes) → has_suffix (p ++ t) t ≡ true
unfolding has_suffix
has_suffix-append p t =
    rw (length-append, add-sub_cancel (length p) (length t), drop-append)
      (ground (arith, ==_iff t t))

-- A text contains another exactly when it is that with something before and behind.
abbrev pub IsInfix : Bytes → Bytes → Type 0
IsInfix sub s = (p : Bytes) × (q : Bytes) × (s ≡ p ++ (sub ++ q))

pub has_prefix-split : (s p : Bytes) → has_prefix s p ≡ true → (q : Bytes) × (s ≡ p ++ q)
unfolding has_prefix
has_prefix-split s [] h = (s, refl)
has_prefix-split [] (c ∷ p) h = absurd (ground arith)
has_prefix-split (b ∷ s) (c ∷ p) h =
    let (q, e) = has_prefix-split s p (ground arith) in (q, ground arith)

pub has_prefix-append : (p q : Bytes) → has_prefix (p ++ q) p ≡ true
unfolding has_prefix
has_prefix-append [] [] = refl
has_prefix-append [] (c ∷ q) = refl
has_prefix-append (c ∷ p) q = ground (arith, has_prefix-append p q)

pub contains-IsInfix : (s sub : Bytes) → contains s sub ≡ true → IsInfix sub s
unfolding contains
contains-IsInfix [] sub h = let (q, e) = has_prefix-split [] sub h in ([], q, e)
contains-IsInfix (c ∷ s) sub h = elim (Bool-cases (has_prefix (c ∷ s) sub)) [
  | inl here ↦ let (q, e) = has_prefix-split (c ∷ s) sub here in ([], q, e)
  | inr not_here ↦
      let (p, q, e) = contains-IsInfix s sub (ground arith) in
      (c ∷ p, q, ap (λ (t : Bytes). c ∷ t) e)
]

pub has_prefix-contains : (s p : Bytes) → has_prefix s p ≡ true → contains s p ≡ true
unfolding contains
has_prefix-contains [] p h = h
has_prefix-contains (c ∷ s) p h = ground arith

pub IsInfix-contains : (p sub q : Bytes) → contains (p ++ (sub ++ q)) sub ≡ true
unfolding contains
IsInfix-contains [] sub q = has_prefix-contains (sub ++ q) sub (has_prefix-append sub q)
IsInfix-contains (c ∷ p) sub q = ground (arith, IsInfix-contains p sub q)

-- Trimming keeps what holds of every byte.
module _ (P : ℕ → Type 0) where
  All-trim_left : (s cutset : Bytes) → All P s → All P (trim_left s cutset)
  unfolding trim_left
  All-trim_left [] cutset h = tt
  All-trim_left (c ∷ s) cutset h = elim (Bool-cases (in_set cutset c)) [
    | inl cut ↦ rw cut (All-trim_left s cutset h.1)
    | inr keep ↦ rw keep h
  ]

  All-cut_last : (cutset : Bytes) (c : ℕ) (s : Bytes) → P c → All P s → All P (cut_last cutset c s)
  unfolding cut_last
  All-cut_last cutset c [] p h = elim (Bool-cases (in_set cutset c)) [
    | inl cut ↦ rw cut tt
    | inr keep ↦ rw keep (p, tt)
  ]
  All-cut_last cutset c (d ∷ s) p h = (p, h)

  All-trim_right : (s cutset : Bytes) → All P s → All P (trim_right s cutset)
  unfolding trim_right
  All-trim_right [] cutset h = tt
  All-trim_right (c ∷ s) cutset h =
      All-cut_last cutset c (trim_right s cutset) h.0 (All-trim_right s cutset h.1)

  pub All-trim : (s cutset : Bytes) → All P s → All P (trim s cutset)
  unfolding trim
  All-trim s cutset h = All-trim_right (trim_left s cutset) cutset (All-trim_left s cutset h)

  All-behind : (p t : Bytes) → All P (p ++ t) → All P t
  All-behind [] t h = h
  All-behind (c ∷ p) t h = All-behind p t h.1

  pub All-ext : (s : Bytes) → All P s → All P (ext s)
  All-ext s h = let (p, e) = ext-IsTail s in All-behind p (ext s) (subst (All P) e h)

  pub All-trim_suffix : (s p : Bytes) → All P s → All P (trim_suffix s p)
  unfolding trim_suffix
  All-trim_suffix s p h = elim (Bool-cases (has_suffix s p)) [
    | inl ends ↦ rw ends (All-take P (length s - length p) s h)
    | inr other ↦ rw other h
  ]

-- A name is what stands before its extension, and the extension.
pub trim_suffix-ext : (s : Bytes) → trim_suffix s (ext s) ++ ext s ≡ s
trim_suffix-ext s =
    let (p, e) = ext-IsTail s in
    trim_suffix-append s (ext s)
      (ap (λ (x : Bytes). has_suffix x (ext s)) e ∙ has_suffix-append p (ext s))
