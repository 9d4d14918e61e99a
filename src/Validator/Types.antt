-- ===== src/Validator/Types.antt =====
-- Extensions, content types and sizes: what ValidateFile accepts.
use pot_play_storage.Prelude.{
  ℕ, ◌≤◌, ◌<◌, ◌≡◌, ◌↔◌, ◌⊎◌, inl, inr, refl, Bytes, List, [], ◌∷◌, none, some, Bool, true, false,
  arith, any, All, ◌==◌, ==_iff, Bool-cases, Option-cases, Bytes-discrete, if◌then◌else◌,
}
use mathlib.Core.Path.{subst}
use pot_play_storage.Prelude.Int.{ℤ, pos, negsuc}
use pot_play_storage.Utf8.{CaseTables}
use pot_play_storage.Model.{FileHeader}
use pot_play_storage.Validator.{
  max_file_size, allowed_types, dangerous_types, lookup_type, lower_ext, validate_file_size,
  validate_filename, validate_file_extension, validate_content_type, validate_file,
}
use pot_play_storage.Validator.Filename.{IsSafeName, validate_filename-IsSafeName}

-- What holds of every key of the table holds of a key that is found.
lookup_type-All :
    (P : Bytes → Type 0) (key : Bytes) (m : List (Bytes × List Bytes)) {v : List Bytes}
    → All (λ (e : Bytes × List Bytes). P e.0) m
    → lookup_type key m ≡ some v
    → P key
unfolding lookup_type
lookup_type-All P key [] h e = absurd (ground arith)
lookup_type-All P key ((k, w) ∷ m) {v} h e = elim (Bool-cases (k == key)) [
  | inl same ↦ subst P ((==_iff k key).0 same) h.0
  | inr other ↦ lookup_type-All P key m {v = v} h.1 (ground arith)
]

abbrev is_dangerous : Bytes → Bool
is_dangerous e = any (λ d. d == e) dangerous_types

-- The listed extensions are neither dangerous nor empty.
is_listable : Bytes → Bool
is_listable e = if is_dangerous e then false else if e == [] then false else true

All-is_listable : All (λ (e : Bytes × List Bytes). is_listable e.0 ≡ true) allowed_types
unfolding Bytes-discrete is_listable
All-is_listable = (
  refl,
  (refl, (refl, (refl, (refl, (refl, (refl, (refl, (refl, (refl, (refl, (refl, tt))))))))))),
)

listed : (e : Bytes) {v : List Bytes} → lookup_type e allowed_types ≡ some v → is_listable e ≡ true
listed e {v} h =
    lookup_type-All (λ k. is_listable k ≡ true) e allowed_types {v = v} All-is_listable h

-- An extension is accepted exactly when it is in the table of allowed types. No listed extension
-- is dangerous, so the list of dangerous ones decides only which error a refusal has.
pub validate_file_extension-listed :
    (t : CaseTables) (name : Bytes)
    → (validate_file_extension t name ≡ none)
      ↔ ((mimes : List Bytes) × (lookup_type (lower_ext t name) allowed_types ≡ some mimes))
unfolding validate_file_extension is_listable
validate_file_extension-listed t name = (
  λ h. elim (Option-cases (lookup_type (lower_ext t name) allowed_types)) [
    | inr there ↦ there
    | inl absent ↦ absurd (ground arith)
  ],
  λ (mimes, h). ground (arith, listed (lower_ext t name) {v = mimes} h),
)

-- One of the texts.
abbrev pub OneOf : Bytes → List Bytes → Type 0
OneOf m [] = ⊥
OneOf m (x ∷ xs) = (m ≡ x) ⊎ OneOf m xs

any-OneOf : (m : Bytes) (xs : List Bytes) → (any (λ x. m == x) xs ≡ true) ↔ OneOf m xs
any-OneOf m [] = (λ h. ground arith, λ h. absurd h)
any-OneOf m (x ∷ xs) = ground (arith, any-OneOf m xs)

-- The table lists the extension of the name, in lower case, with these content types.
abbrev pub HasTypes : CaseTables → Bytes → List Bytes → Type 0
HasTypes t name mimes = lookup_type (lower_ext t name) allowed_types ≡ some mimes

content_type-OneOf :
    (t : CaseTables) (name content_type : Bytes)
    → (validate_content_type t name content_type ≡ none)
      ↔ ((mimes : List Bytes) × HasTypes t name mimes × OneOf content_type mimes)
unfolding validate_content_type
content_type-OneOf t name content_type = (
  λ h. elim (Option-cases (lookup_type (lower_ext t name) allowed_types)) [
    | inl absent ↦ absurd (ground arith)
    | inr (mimes, there) ↦ (mimes, there, (any-OneOf content_type mimes).0 (ground arith))
  ],
  λ (mimes, there, one). ground (arith, (any-OneOf content_type mimes).1 one),
)

file_size-bounds :
    (size : ℤ)
    → (validate_file_size size ≡ none) ↔ ((n : ℕ) × (size ≡ pos n) × (0 < n) × (n ≤ max_file_size))
unfolding validate_file_size
file_size-bounds (pos n) =
    (λ h. (n, refl, ground arith, ground arith), λ (m, e, low, high). ground arith)
file_size-bounds (negsuc n) =
    (λ h. absurd (ground arith), λ (m, e, low, high). absurd (ground arith))

-- What an upload has to be.
pub record IsAcceptable (t : CaseTables) (header : FileHeader) : Type 0 where
  pub safe : IsSafeName t header.name
  pub typed :
      (mimes : List Bytes) × HasTypes t header.name mimes
      × ((header.content_type ≡ []) ⊎ OneOf header.content_type mimes)
  pub sized : (n : ℕ) × (header.size ≡ pos n) × (0 < n) × (n ≤ max_file_size)

passes_file :
    (t : CaseTables) (h : FileHeader)
    → (validate_file t (some h) ≡ none) ↔ (
        (validate_filename t h.name ≡ none)
        × (validate_file_extension t h.name ≡ none)
        × (validate_file_size h.size ≡ none)
        × ((h.content_type ≡ []) ⊎ (validate_content_type t h.name h.content_type ≡ none)))
unfolding validate_file
passes_file t h = ground arith

-- A header is accepted exactly when its name is safe, its extension is listed, its content type is
-- empty or one of those listed for the extension, and its size is between 1 and the maximum.
pub validate_file-IsAcceptable :
    (t : CaseTables) (h : FileHeader) → (validate_file t (some h) ≡ none) ↔ IsAcceptable t h
validate_file-IsAcceptable t h = (
  λ e.
      let (name, extension, size, typed) = (passes_file t h).0 e in
      record {
        safe = (validate_filename-IsSafeName t h.name).0 name;
        typed = types extension typed;
        sized = (file_size-bounds h.size).0 size;
      },
  λ a.
      let (mimes, there, typed) = a.typed in
      (passes_file t h).1 (
        (validate_filename-IsSafeName t h.name).1 a.safe,
        (validate_file_extension-listed t h.name).1 (mimes, there),
        (file_size-bounds h.size).1 a.sized,
        untypes mimes there typed,
      ),
)
  where
    types :
        validate_file_extension t h.name ≡ none
        → (h.content_type ≡ []) ⊎ (validate_content_type t h.name h.content_type ≡ none)
        → (mimes : List Bytes) × HasTypes t h.name mimes
          × ((h.content_type ≡ []) ⊎ OneOf h.content_type mimes)
    types extension (inl empty) =
        let (mimes, there) = (validate_file_extension-listed t h.name).0 extension in
        (mimes, there, inl empty)
    types extension (inr typed) =
        let (mimes, there, one) = (content_type-OneOf t h.name h.content_type).0 typed in
        (mimes, there, inr one)

    untypes :
        (mimes : List Bytes)
        → HasTypes t h.name mimes
        → (h.content_type ≡ []) ⊎ OneOf h.content_type mimes
        → (h.content_type ≡ []) ⊎ (validate_content_type t h.name h.content_type ≡ none)
    untypes mimes there (inl empty) = inl empty
    untypes mimes there (inr one) =
        inr ((content_type-OneOf t h.name h.content_type).1 (mimes, there, one))
