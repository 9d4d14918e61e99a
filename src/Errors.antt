-- ===== src/Errors.antt =====
-- Errors as values, and the results of calls that may fail. `message` is Go's `Error()`.
pub mod Sanitize
pub mod Secrecy
use pot_play_storage.Prelude.{
  ◌≡◌, refl, ◌⊎◌, inl, inr, ℕ, Bytes, codes, ◌++◌, List, Option, none, some,
}
use pot_play_storage.Utf8.{encode_rune}

pub data Error : Type 0 where
  -- pkg/validator/file.go
  filename_too_short : Error
  filename_too_long : Error
  invalid_character : ℕ → Error
  control_character : Error
  reserved_name : Bytes → Error
  path_traversal : Error
  hidden_file : Error
  no_extension : Error
  dangerous_type : Bytes → Error
  unsupported_type : Bytes → Error
  extension_not_allowed : Bytes → Error
  content_type_mismatch : Bytes → Bytes → Error
  size_not_positive : Error
  file_too_large : Error
  header_required : Error
  -- fmt.Errorf("<prefix>: %w", err)
  wrapped : Bytes → Error → Error
  -- an error of a library or a service, with its message
  external : Bytes → Error

unfoldable pub message : Error → Bytes
unfolding encode_rune
message filename_too_short = codes "filename too short"
message filename_too_long = codes "filename too long (max 255 characters)"
message (invalid_character c) = codes "filename contains invalid character: " ++ encode_rune c
message control_character = codes "filename contains control character"
message (reserved_name n) = codes "filename uses reserved name: " ++ n
message path_traversal = codes "filename contains path traversal characters"
message hidden_file = codes "hidden files not allowed"
message no_extension = codes "file must have an extension"
message (dangerous_type ext) = codes "dangerous file type not allowed: " ++ ext
message (unsupported_type ext) = codes "unsupported file type: " ++ ext
message (extension_not_allowed ext) = codes "file extension not allowed: " ++ ext
message (content_type_mismatch ct ext) =
    codes "content type " ++ (ct ++ (codes " does not match file extension " ++ ext))
message size_not_positive = codes "file size must be greater than 0"
message file_too_large = codes "file too large (max 104857600 bytes)"
message header_required = codes "file header is required"
message (wrapped prefix e) = prefix ++ (codes ": " ++ message e)
message (external m) = m

-- A pair `(value, err)` of the source.
pub data Result {ℓ} (A : Type ℓ) : Type ℓ where
  ok : A → Result A
  err : Error → Result A

-- A returned `error`: nil is `none`. The second is reached if the first finds nothing.
infixr 5 ◌then_check◌
abbrev pub ◌then_check◌ : Option Error → Option Error → Option Error
some e then_check k = some e
none then_check k = k

-- if err != nil { return fmt.Errorf("<prefix>: %w", err) }
abbrev pub wrap : Bytes → Option Error → Option Error
wrap prefix none = none
wrap prefix (some e) = some (wrapped prefix e)

pub Result-cases {ℓ} :
    {A : Type ℓ} (x : Result A) → ((a : A) × (x ≡ ok a)) ⊎ ((e : Error) × (x ≡ err e))
Result-cases (ok a) = inl (a, refl)
Result-cases (err e) = inr (e, refl)
