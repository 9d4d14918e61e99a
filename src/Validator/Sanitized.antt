-- ===== src/Validator/Sanitized.antt =====
-- SanitizeFilename: what it takes out, and how long its result is.
use pot_play_storage.Prelude.{
  ℕ, ◌-◌, ◌≤◌, ◌++◌, ◌≡◌, ◌≢◌, inl, inr, Bytes, codes, [], ◌∷◌, map, arith, All, All-append,
  All-take, ◌==◌, length, take, ltb, Bool-cases, if◌then◌else◌,
}
use pot_play_storage.Strings.{trim, trim_suffix, ext}
use pot_play_storage.Strings.Laws.{All-trim, All-ext, All-trim_suffix}
use pot_play_storage.Validator.{
  is_replaced, replace_byte, limit_length, sanitize_filename, max_filename_len,
}

-- None of the characters that the pattern replaces.
abbrev pub IsClean : ℕ → Type 0
IsClean b =
    (32 ≤ b)
    × (b ≢ b'<')
    × (b ≢ b'>')
    × (b ≢ b':')
    × (b ≢ b'"')
    × (b ≢ b'|')
    × (b ≢ b'?')
    × (b ≢ b'*')

replace_byte-IsClean : (b : ℕ) → IsClean (replace_byte b)
unfolding is_replaced
replace_byte-IsClean b = ground arith

replaced-IsClean : (s : Bytes) → All IsClean (map replace_byte s)
replaced-IsClean [] = tt
replaced-IsClean (b ∷ s) = (replace_byte-IsClean b, replaced-IsClean s)

limit_length-IsClean : (s : Bytes) → All IsClean s → All IsClean (limit_length s)
unfolding limit_length
limit_length-IsClean s h = elim (Bool-cases (ltb max_filename_len (length s))) [
  | inr short ↦ rw short h
  | inl long ↦ elim (Bool-cases (ltb (length (ext s)) max_filename_len)) [
    | inr no_room ↦ rw (long, no_room) h
    | inl room ↦
        rw (long, room)
          (All-append IsClean _ (ext s)
            (All-take IsClean (max_filename_len - length (ext s)) (trim_suffix s (ext s))
              (All-trim_suffix IsClean s (ext s) h))
            (All-ext IsClean s h))
  ]
]

-- Whatever a file was called, no character that the pattern names and no control character below
-- a space is left in its sanitized name.
pub sanitize_filename-IsClean : (name : Bytes) → All IsClean (sanitize_filename name)
unfolding sanitize_filename
sanitize_filename-IsClean name = named (limit_length (trim (map replace_byte name) (codes " ."))) (
    limit_length-IsClean (trim (map replace_byte name) (codes " ."))
      (All-trim IsClean (map replace_byte name) (codes " .") (replaced-IsClean name)))
  where
    named : (s : Bytes) → All IsClean s → All IsClean (if s == [] then codes "unnamed_file" else s)
    named s h = elim (Bool-cases (s == [])) [
      | inl empty ↦ rw empty (omega arith)
      | inr other ↦ rw other h
    ]

-- The name without its dangerous characters, before its length is looked at.
abbrev pub replaced : Bytes → Bytes
replaced name = trim (map replace_byte name) (codes " .")

-- A name keeps its extension and loses the end of what stands before it.
abbrev pub IsCut : Bytes → Bytes → Type 0
IsCut s out =
    (stem : Bytes) × (k : ℕ) × (s ≡ stem ++ ext s)
    × (out ≡ take k stem ++ ext s)
    × (length out ≡ max_filename_len)
