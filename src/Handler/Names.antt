-- ===== src/Handler/Names.antt =====
-- The Content-Disposition line of a download: what a client reads from it.
use pot_play_storage.Prelude.{
  ℕ, ◌≤◌, ◌≡◌, ◌≢◌, refl, sym, ap, ◌∙◌, inl, inr, Bytes, codes, [], ◌∷◌, ◌++◌, Option, none, some,
  Bool, true, false, arith, Bool-cases, ◌==◌, ==_iff, if◌then◌else◌, nat_eq, append_assoc, All,
  All-append,
}
use pot_play_storage.Strings.{trim_prefix}
use pot_play_storage.Strings.Laws.{has_prefix-append, drop-append}
use pot_play_storage.Utf8.{CaseTables}
use pot_play_storage.Model.{File}
use pot_play_storage.Validator.{validate_filename}
use pot_play_storage.Validator.Filename.{IsHarmless, validate_filename-IsHarmless}
use pot_play_storage.Handler.{disposition, safe_name}

cons : ℕ → Option (Bytes × Bytes) → Option (Bytes × Bytes)
cons b none = none
cons b (some (name, rest)) = some (b ∷ name, rest)

-- A quoted string of RFC 9110 from behind its first quote: its text, and what follows its last
-- quote. A backslash stands before a byte that is taken as it is.
pub read_quoted : Bool → Bytes → Option (Bytes × Bytes)
unfolding cons
read_quoted escaped [] = none
read_quoted true (b ∷ s) = cons b (read_quoted false s)
read_quoted false (b ∷ s) =
    let plain = read_quoted false s in
    let next = read_quoted true s in
    if nat_eq b b'"' then some ([], s) else if nat_eq b b'\\' then next else cons b plain

-- The name in a Content-Disposition line of that kind, and what follows it.
pub read_filename : Bytes → Bytes → Option (Bytes × Bytes)
unfolding read_quoted
read_filename kind line = read_quoted false (trim_prefix line (kind ++ codes "; filename=\""))

read_quoted-harmless :
    (name rest : Bytes)
    → All IsHarmless name
    → read_quoted false (name ++ (b'"' ∷ rest)) ≡ some (name, rest)
unfolding read_quoted cons
read_quoted-harmless [] rest h = refl
read_quoted-harmless (b ∷ name) rest h = ground (arith, read_quoted-harmless name rest h.1)

trim_prefix-append : (p q : Bytes) → trim_prefix (p ++ q) p ≡ q
unfolding trim_prefix
trim_prefix-append p q = rw (has_prefix-append p q, drop-append p q)

accepted_nonempty :
    (t : CaseTables) (name : Bytes) → validate_filename t name ≡ none → (name == []) ≡ false
unfolding validate_filename
accepted_nonempty t name h = elim (Bool-cases (name == [])) [
  | inr other ↦ other
  | inl empty ↦
      let refused : validate_filename t [] ≡ none =
        ap (validate_filename t) (sym ((==_iff name []).0 empty)) ∙ h in
      absurd (ground arith)
]

-- No byte of a header line ends the line or is a control byte of ASCII.
abbrev pub IsPrintable : ℕ → Type 0
IsPrintable b = (32 ≤ b) × (b ≢ 127)

harmless-IsPrintable : (s : Bytes) → All IsHarmless s → All IsPrintable s
harmless-IsPrintable [] h = tt
harmless-IsPrintable (b ∷ s) h = ((h.0.0, h.0.1), harmless-IsPrintable s h.1)

disposition-IsPrintable :
    (kind name : Bytes)
    → All IsPrintable kind
    → All IsPrintable name
    → All IsPrintable (disposition kind name)
disposition-IsPrintable kind name k n = All-append IsPrintable kind _ k (
    All-append IsPrintable (codes "; filename=\"") _ (ground arith)
      (All-append IsPrintable name _ n (ground arith)))

-- If a file's name is one that the validator accepts, a client reads exactly that name from the
-- Content-Disposition line, with nothing behind it, and the line has no byte that ends it or is a
-- control byte. The kind of disposition is any printable text.
pub read_filename-disposition :
    (t : CaseTables) (kind id : Bytes) (file : File)
    → All IsPrintable kind
    → validate_filename t file.name ≡ none
    → (read_filename kind (disposition kind (safe_name id file)) ≡ some (file.name, []))
      × All IsPrintable (disposition kind (safe_name id file))
unfolding read_filename
read_filename-disposition t kind id file k h =
    rw (accepted_nonempty t file.name h, if◌then◌else◌)
      (
        ap (λ (line : Bytes). read_quoted false (trim_prefix line (kind ++ codes "; filename=\"")))
              (sym (append_assoc kind (codes "; filename=\"") (file.name ++ codes "\"")))
            ∙ ap (read_quoted false)
                (trim_prefix-append (kind ++ codes "; filename=\"") (file.name ++ codes "\""))
            ∙ read_quoted-harmless file.name [] harmless,
        disposition-IsPrintable kind file.name k (harmless-IsPrintable file.name harmless),
      )
  where
    harmless : All IsHarmless file.name
    harmless = validate_filename-IsHarmless t file.name h
