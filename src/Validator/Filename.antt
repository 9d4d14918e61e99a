-- ===== src/Validator/Filename.antt =====
-- ValidateFilename accepts exactly the safe names.
use pot_play_storage.Prelude.{
  ℕ, ◌≤◌, ◌<◌, ◌≡◌, ◌≢◌, ◌↔◌, ◌⊎◌, inl, inr, refl, sym, ap, ◌∙◌, Bytes, codes, List, [], ◌∷◌, ◌++◌,
  Option, none, some, Bool, false, ◌||◌, arith, any, All, length, nat_eq, ltb, Bool-cases,
}
use pot_play_storage.Strings.{has_prefix, contains}
use pot_play_storage.Strings.Laws.{
  IsInfix, contains-IsInfix, IsInfix-contains, has_prefix-split, has_prefix-append, any-false-All,
  contains-byte,
}
use pot_play_storage.Utf8.{CaseTables, runes, is_control}
use pot_play_storage.Utf8.Laws.{All-runes}
use pot_play_storage.Errors.{Error, ◌then_check◌}
use pot_play_storage.Validator.{
  dangerous_chars, reserved_names, check_runes, check_reserved, base_filename, validate_filename,
  max_filename_len, min_filename_len, fails_if,
}

-- No dangerous character and no control character.
abbrev pub IsAllowedRune : ℕ → Type 0
IsAllowedRune r = All (λ d. d ≢ r) dangerous_chars × (32 ≤ r) × ((r < 127) ⊎ (159 < r))

abbrev Within : Bytes → Type 0
Within s = (min_filename_len ≤ length s) × (length s ≤ max_filename_len)

-- A name that can be stored and sent: its length, its runes, no device of Windows, no way out of
-- its directory, not hidden.
pub record IsSafeName (t : CaseTables) (s : Bytes) : Type 0 where
  pub within : Within s
  pub allowed : All IsAllowedRune (runes s)
  pub not_reserved : All (λ n. base_filename t s ≢ n) reserved_names
  pub no_parent : ¬ IsInfix (codes "..") s
  pub no_slash : ¬ IsInfix (codes "/") s
  pub no_backslash : ¬ IsInfix (codes "\\") s
  pub not_hidden : (q : Bytes) → s ≢ codes "." ++ q

rejected : ℕ → Bool
rejected r = any (nat_eq r) dangerous_chars || is_control r

rejected-allowed : (r : ℕ) → rejected r ≡ false → IsAllowedRune r
unfolding rejected is_control
rejected-allowed r h = ground arith

allowed-rejected : (r : ℕ) → IsAllowedRune r → rejected r ≡ false
unfolding rejected is_control
allowed-rejected r (d, low, side) = ground arith

check_runes-cons :
    (r : ℕ) (rs : List ℕ)
    → (check_runes (r ∷ rs) ≡ none) ↔ ((rejected r ≡ false) × (check_runes rs ≡ none))
unfolding check_runes rejected
check_runes-cons r rs = ground arith

check_runes-none : (rs : List ℕ) → (check_runes rs ≡ none) ↔ All IsAllowedRune rs
check_runes-none [] = (λ _. tt, λ _. unfold check_runes in refl)
check_runes-none (r ∷ rs) = (
  λ h.
      let (ok_rune, rest) = (check_runes-cons r rs).0 h in
      (rejected-allowed r ok_rune, (check_runes-none rs).0 rest),
  λ h. (check_runes-cons r rs).1 (allowed-rejected r h.0, (check_runes-none rs).1 h.1),
)

check_reserved-none :
    (base : Bytes) (names : List Bytes)
    → (check_reserved base names ≡ none) ↔ All (λ n. base ≢ n) names
unfolding check_reserved
check_reserved-none base [] = (λ _. tt, λ _. refl)
check_reserved-none base (n ∷ names) = ground (arith, check_reserved-none base names)

then_check-none : (a b : Option Error) → ((a then_check b) ≡ none) ↔ ((a ≡ none) × (b ≡ none))
then_check-none none b = (λ h. (refl, h), λ h. h.1)
then_check-none (some e) b = (λ h. absurd (ground arith), λ h. h.0)

fails_if-none : (b : Bool) (e : Error) → (fails_if b e ≡ none) ↔ (b ≡ false)
fails_if-none b e = ground arith

module _ (t : CaseTables) (s : Bytes) where
  -- The tests of ValidateFilename, each as it comes out.
  passes : (validate_filename t s ≡ none) ↔ (
      (ltb (length s) min_filename_len ≡ false)
      × (ltb max_filename_len (length s) ≡ false)
      × (check_runes (runes s) ≡ none)
      × (check_reserved (base_filename t s) reserved_names ≡ none)
      × (contains s (codes "..") ≡ false)
      × (contains s (codes "/") ≡ false)
      × (contains s (codes "\\") ≡ false)
      × (has_prefix s (codes ".") ≡ false))
  unfolding validate_filename
  passes = ground arith

not_infix : (s sub : Bytes) → (contains s sub ≡ false) ↔ (¬ IsInfix sub s)
not_infix s sub = (
  λ h (p, q, e). cc (h, ap (λ (x : Bytes). contains x sub) e, IsInfix-contains p sub q),
  λ n. elim (Bool-cases (contains s sub)) [
    | inl h ↦ absurd (n (contains-IsInfix s sub h))
    | inr h ↦ h
  ],
)

not_prefix : (s p : Bytes) → (has_prefix s p ≡ false) ↔ ((q : Bytes) → s ≢ p ++ q)
not_prefix s p = (
  λ h q e. cc (h, ap (λ (x : Bytes). has_prefix x p) e, has_prefix-append p q),
  λ n. elim (Bool-cases (has_prefix s p)) [
    | inl h ↦ let (q, e) = has_prefix-split s p h in absurd (n q e)
    | inr h ↦ h
  ],
)

-- A filename is accepted exactly when it is safe: it has 1 to 255 bytes, none of its runes is one
-- of the dangerous ones or a control character, its base in capitals is no reserved name, it
-- contains no "..", slash or backslash, and it does not start with a dot.
pub validate_filename-IsSafeName :
    (t : CaseTables) (s : Bytes) → (validate_filename t s ≡ none) ↔ IsSafeName t s
validate_filename-IsSafeName t s = (
  λ h.
      let (low, high, rs, names, parent, slash, backslash, dot) = (passes t s).0 h in
      record {
        within = (ground arith, ground arith);
        allowed = (check_runes-none (runes s)).0 rs;
        not_reserved = (check_reserved-none (base_filename t s) reserved_names).0 names;
        no_parent = (not_infix s (codes "..")).0 parent;
        no_slash = (not_infix s (codes "/")).0 slash;
        no_backslash = (not_infix s (codes "\\")).0 backslash;
        not_hidden = (not_prefix s (codes ".")).0 dot;
      },
  λ n. (passes t s).1 (
    ground arith,
    ground arith,
    (check_runes-none (runes s)).1 n.allowed,
    (check_reserved-none (base_filename t s) reserved_names).1 n.not_reserved,
    (not_infix s (codes "..")).1 n.no_parent,
    (not_infix s (codes "/")).1 n.no_slash,
    (not_infix s (codes "\\")).1 n.no_backslash,
    (not_prefix s (codes ".")).1 n.not_hidden,
  ),
)

-- A byte that an accepted name may have: none that a header line or a path gives a meaning.
abbrev pub IsHarmless : ℕ → Type 0
IsHarmless b = (32 ≤ b) × (b ≢ 127) × (b ≢ b'"') × (b ≢ b'/') × (b ≢ b'\\') × (b ≢ b':')

-- What the runes alone rule out.
abbrev IsPlain : ℕ → Type 0
IsPlain b = (32 ≤ b) × (b ≢ 127) × (b ≢ b'"') × (b ≢ b':')

IsPlain-high : (b : ℕ) → 128 ≤ b → IsPlain b
IsPlain-high b h = (omega arith, omega arith, omega arith, omega arith)

IsAllowedRune-IsPlain : (rs : List ℕ) → All IsAllowedRune rs → All IsPlain rs
IsAllowedRune-IsPlain [] h = tt
IsAllowedRune-IsPlain (r ∷ rs) (allowed, rest) = (
  (allowed.1, ground arith, (λ e. allowed.0.1.1.1.0 (sym e)), (λ e. allowed.0.1.1.0 (sym e))),
  IsAllowedRune-IsPlain rs rest,
)

harmless :
    (s : Bytes) → All IsPlain s → All (λ b. b ≢ b'/') s → All (λ b. b ≢ b'\\') s → All IsHarmless s
harmless [] p h k = tt
harmless (b ∷ s) p h k = ((p.0.0, p.0.1, p.0.2, h.0, k.0, p.0.3), harmless s p.1 h.1 k.1)

no_byte : (b : ℕ) (s : Bytes) → contains s (b ∷ []) ≡ false → All (λ c. c ≢ b) s
no_byte b s h = any-false-All b s (sym (contains-byte s b) ∙ h)

-- Every byte of an accepted filename is harmless: it ends no quoted text and no line, separates no
-- path, and is no control byte of ASCII.
pub validate_filename-IsHarmless :
    (t : CaseTables) (s : Bytes) → validate_filename t s ≡ none → All IsHarmless s
validate_filename-IsHarmless t s h =
    let (low, high, rs, names, parent, slash, backslash, dot) = (passes t s).0 h in
    harmless s
      (All-runes IsPlain IsPlain-high s
        (IsAllowedRune-IsPlain (runes s) ((check_runes-none (runes s)).0 rs)))
      (no_byte b'/' s slash) (no_byte b'\\' s backslash)
