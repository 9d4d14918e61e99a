-- ===== src/Utf8/Laws.antt =====
-- Reading a text rune by rune misses no ASCII byte, and leaves an ASCII text as it is.
use pot_play_storage.Prelude.{
  ℕ, zero, suc, ◌-◌, ◌≤◌, ◌<◌, ◌≡◌, refl, [], ◌∷◌, Bytes, All, take, arith, ap, ◌&&◌, Bool, true,
  false, Bool-cases, inl, inr, ltb, leb, if◌then◌else◌,
}
use mathlib.Core.Path.{subst}
use pot_play_storage.Utf8.{decode, two, three, four, runes, runes_after, is_continuation, between}

abbrev IsHigh : ℕ → Type 0
IsHigh b = 128 ≤ b

-- The bytes that belong to a rune behind its first byte are not ASCII.
two-IsHigh : (b : ℕ) (rest : Bytes) → All IsHigh (take ((two b rest).1 - 1) rest)
unfolding two
two-IsHigh b [] = tt
two-IsHigh b (c ∷ rest) = elim (Bool-cases (is_continuation c)) [
  | inl e ↦ rw e (ground arith, tt)
  | inr e ↦ rw e tt
]

three-IsHigh :
    (lo hi b : ℕ) (rest : Bytes) → 128 ≤ lo → All IsHigh (take ((three lo hi b rest).1 - 1) rest)
unfolding three
three-IsHigh lo hi b [] h = tt
three-IsHigh lo hi b (c ∷ []) h = tt
three-IsHigh lo hi b (c ∷ d ∷ rest) h = elim (Bool-cases (between lo hi c && is_continuation d)) [
  | inl e ↦ rw e (ground arith, (ground arith, tt))
  | inr e ↦ rw e tt
]

four-IsHigh :
    (lo hi b : ℕ) (rest : Bytes) → 128 ≤ lo → All IsHigh (take ((four lo hi b rest).1 - 1) rest)
unfolding four
four-IsHigh lo hi b [] h = tt
four-IsHigh lo hi b (c ∷ []) h = tt
four-IsHigh lo hi b (c ∷ d ∷ []) h = tt
four-IsHigh lo hi b (c ∷ d ∷ e ∷ rest) h =
    elim (Bool-cases (between lo hi c && is_continuation d && is_continuation e)) [
      | inl q ↦ rw q (ground arith, (ground arith, (ground arith, tt)))
      | inr q ↦ rw q tt
    ]

decode_ascii : (b : ℕ) (rest : Bytes) → b < 128 → decode b rest ≡ (b, 1)
unfolding decode
decode_ascii b rest h = ground arith

first_bound : (t : Bool) → 128 ≤ (if t then 0xa0 else 0x80)
first_bound true = omega arith
first_bound false = omega arith

first_bound_four : (t : Bool) → 128 ≤ (if t then 0x90 else 0x80)
first_bound_four true = omega arith
first_bound_four false = omega arith

-- The width of a rune counts no ASCII byte behind the first.
decode-IsHigh : (b : ℕ) (rest : Bytes) → All IsHigh (take ((decode b rest).1 - 1) rest)
unfolding decode
decode-IsHigh b rest = elim (Bool-cases (ltb b 0x80)) [
  | inl e ↦ rw e tt
  | inr e ↦ rw e (elim (Bool-cases (ltb b 0xc2)) [
    | inl e ↦ rw e tt
    | inr e ↦ rw e (elim (Bool-cases (ltb b 0xe0)) [
      | inl e ↦ rw e (two-IsHigh b rest)
      | inr e ↦ rw e (elim (Bool-cases (ltb b 0xf0)) [
        | inl e ↦ rw e (three-IsHigh _ _ b rest (first_bound (leb b 0xe0)))
        | inr e ↦ rw e (elim (Bool-cases (ltb b 0xf5)) [
          | inl e ↦ rw e (four-IsHigh _ _ b rest (first_bound_four (leb b 0xf0)))
          | inr e ↦ rw e tt
        ])
      ])
    ])
  ])
]

module _ (P : ℕ → Type 0) (high : (b : ℕ) → 128 ≤ b → P b) where
  first_byte : (b : ℕ) (rest : Bytes) → P (decode b rest).0 → P b
  first_byte b rest h = elim (Bool-cases (ltb b 128)) [
    | inl e ↦ subst P (ap (λ (d : ℕ × ℕ). d.0) (decode_ascii b rest (ground arith))) h
    | inr e ↦ high b (ground arith)
  ]

  All-runes_after :
      (skip : ℕ) (s : Bytes) → All IsHigh (take skip s) → All P (runes_after skip s) → All P s
  unfolding runes_after
  All-runes_after skip [] k h = tt
  All-runes_after (suc skip) (b ∷ s) k h = (high b k.0, All-runes_after skip s k.1 h)
  All-runes_after zero (b ∷ s) k h =
      (first_byte b s h.0, All-runes_after ((decode b s).1 - 1) s (decode-IsHigh b s) h.1)

  -- What holds of every rune holds of every byte, if it holds of all that are not ASCII.
  pub All-runes : (s : Bytes) → All P (runes s) → All P s
  unfolding runes runes_after
  All-runes s h = All-runes_after 0 s tt h

abbrev pub IsAscii : Bytes → Type 0
IsAscii = All (λ b. b < 128)

-- An ASCII text has its bytes for runes.
pub runes_ascii : (s : Bytes) → IsAscii s → runes s ≡ s
unfolding runes runes_after
runes_ascii [] h = refl
runes_ascii (b ∷ s) h = rw (decode_ascii b s h.0) (ap (λ (t : Bytes). b ∷ t) (runes_ascii s h.1))
