-- ===== src/Validator.antt =====
-- pkg/validator/file.go: what an uploaded file may be called, hold and weigh.
pub mod Filename
pub mod Types
pub mod Sanitized
use pot_play_storage.Prelude.{
  ℕ, ◌-◌, Bytes, codes, ◌++◌, List, [], ◌∷◌, map, Option, none, some, Bool, ◌||◌, any, length, take,
  ltb, nat_eq, ◌==◌, if◌then◌else◌,
}
use pot_play_storage.Prelude.Int.{ℤ, is_nonpos, is_above}
use pot_play_storage.Strings.{has_prefix, contains, trim_suffix, trim, ext}
use pot_play_storage.Utf8.{CaseTables, runes, is_control, to_upper, to_lower}
use pot_play_storage.Model.{FileHeader}
use pot_play_storage.Errors.{
  Error, filename_too_short, filename_too_long, invalid_character, control_character, reserved_name,
  path_traversal, hidden_file, no_extension, dangerous_type, unsupported_type,
  extension_not_allowed, content_type_mismatch, size_not_positive, file_too_large, header_required,
  ◌then_check◌, wrap,
}

-- 100 * 1024 * 1024
abbrev pub max_file_size : ℕ
max_file_size = 104857600

abbrev pub max_filename_len : ℕ
max_filename_len = 255

abbrev pub min_filename_len : ℕ
min_filename_len = 1

abbrev pub allowed_types : List (Bytes × List Bytes)
allowed_types =
    (codes ".jpg", codes "image/jpeg" ∷ [])
    ∷ (codes ".jpeg", codes "image/jpeg" ∷ [])
    ∷ (codes ".png", codes "image/png" ∷ [])
    ∷ (codes ".gif", codes "image/gif" ∷ [])
    ∷ (codes ".webp", codes "image/webp" ∷ [])
    ∷ (codes ".avif", codes "image/avif" ∷ [])
    ∷ (codes ".mp4", codes "video/mp4" ∷ [])
    ∷ (codes ".avi", codes "video/x-msvideo" ∷ [])
    ∷ (codes ".mov", codes "video/quicktime" ∷ [])
    ∷ (codes ".pdf", codes "application/pdf" ∷ [])
    ∷ (codes ".txt", codes "text/plain" ∷ codes "text/plain; charset=utf-8" ∷ [])
    ∷ (codes ".zip", codes "application/zip" ∷ [])
    ∷ []

abbrev pub dangerous_types : List Bytes
dangerous_types =
    codes ".exe"
    ∷ codes ".bat"
    ∷ codes ".cmd"
    ∷ codes ".com"
    ∷ codes ".scr"
    ∷ codes ".pif"
    ∷ codes ".vbs"
    ∷ codes ".js"
    ∷ codes ".jar"
    ∷ codes ".sh"
    ∷ codes ".bash"
    ∷ codes ".ps1"
    ∷ codes ".php"
    ∷ codes ".asp"
    ∷ codes ".jsp"
    ∷ codes ".py"
    ∷ codes ".rb"
    ∷ codes ".pl"
    ∷ codes ".cgi"
    ∷ codes ".dll"
    ∷ codes ".so"
    ∷ codes ".dylib"
    ∷ codes ".app"
    ∷ codes ".deb"
    ∷ codes ".rpm"
    ∷ codes ".msi"
    ∷ codes ".dmg"
    ∷ codes ".iso"
    ∷ []

abbrev pub reserved_names : List Bytes
reserved_names =
    codes "CON"
    ∷ codes "PRN"
    ∷ codes "AUX"
    ∷ codes "NUL"
    ∷ codes "COM1"
    ∷ codes "COM2"
    ∷ codes "COM3"
    ∷ codes "COM4"
    ∷ codes "COM5"
    ∷ codes "COM6"
    ∷ codes "COM7"
    ∷ codes "COM8"
    ∷ codes "COM9"
    ∷ codes "LPT1"
    ∷ codes "LPT2"
    ∷ codes "LPT3"
    ∷ codes "LPT4"
    ∷ codes "LPT5"
    ∷ codes "LPT6"
    ∷ codes "LPT7"
    ∷ codes "LPT8"
    ∷ codes "LPT9"
    ∷ []

-- '<', '>', ':', '"', '|', '?', '*', '\x00'
abbrev pub dangerous_chars : List ℕ
dangerous_chars = 0x3c ∷ 0x3e ∷ 0x3a ∷ 0x22 ∷ 0x7c ∷ 0x3f ∷ 0x2a ∷ 0 ∷ []

-- AllowedTypes[ext], with the map's second result.
unfoldable pub lookup_type : Bytes → List (Bytes × List Bytes) → Option (List Bytes)
lookup_type key [] = none
lookup_type key ((k, v) ∷ m) = if k == key then some v else lookup_type key m

-- The loop over the runes of the name.
check_runes : List ℕ → Option Error
check_runes [] = none
check_runes (char ∷ rest) =
    if any (nat_eq char) dangerous_chars
    then some (invalid_character char)
    else if is_control char
    then some control_character
    else check_runes rest

-- The loop over the reserved names.
check_reserved : Bytes → List Bytes → Option Error
check_reserved base [] = none
check_reserved base (reserved ∷ rest) =
    if base == reserved then some (reserved_name reserved) else check_reserved base rest

abbrev fails_if : Bool → Error → Option Error
fails_if b e = if b then some e else none

unfoldable pub validate_file_size : ℤ → Option Error
validate_file_size size =
    fails_if (is_nonpos size) size_not_positive
    then_check fails_if (is_above size max_file_size) file_too_large

module _ (t : CaseTables) where
  unfoldable pub base_filename : Bytes → Bytes
  base_filename filename = to_upper t (trim_suffix filename (ext filename))

  unfoldable pub validate_filename : Bytes → Option Error
  unfolding check_runes check_reserved base_filename
  validate_filename filename =
      fails_if (ltb (length filename) min_filename_len) filename_too_short
      then_check fails_if (ltb max_filename_len (length filename)) filename_too_long
      then_check check_runes (runes filename)
      then_check check_reserved (base_filename filename) reserved_names
      then_check fails_if
          (contains filename (codes "..")
            || contains filename (codes "/")
            || contains filename (codes "\\"))
          path_traversal
      then_check fails_if (has_prefix filename (codes ".")) hidden_file

  unfoldable pub lower_ext : Bytes → Bytes
  lower_ext filename = to_lower t (ext filename)

  unfoldable pub validate_file_extension : Bytes → Option Error
  unfolding lower_ext lookup_type
  validate_file_extension filename =
      let e = lower_ext filename in
      fails_if (e == []) no_extension
      then_check fails_if (any (λ d. d == e) dangerous_types) (dangerous_type e)
      then_check elim (lookup_type e allowed_types) [
        | none ↦ some (unsupported_type e)
        | some _ ↦ none
      ]

  unfoldable pub validate_content_type : Bytes → Bytes → Option Error
  unfolding lower_ext lookup_type
  validate_content_type filename content_type =
      let e = lower_ext filename in
      elim (lookup_type e allowed_types) [
        | none ↦ some (extension_not_allowed e)
        | some mimes ↦
            if any (λ m. content_type == m) mimes
            then none
            else some (content_type_mismatch content_type e)
      ]

  -- A nil header is `none`.
  unfoldable pub validate_file : Option FileHeader → Option Error
  validate_file none = some header_required
  validate_file (some header) =
      wrap (codes "invalid filename") (validate_filename header.name)
      then_check wrap (codes "invalid file extension") (validate_file_extension header.name)
      then_check wrap (codes "invalid file size") (validate_file_size header.size)
      then_check (if header.content_type == []
          then none
          else wrap (codes "invalid content type")
              (validate_content_type header.name header.content_type))

-- The class [<>:"|?*\x00-\x1f] of the pattern.
unfoldable pub is_replaced : ℕ → Bool
is_replaced c = any (nat_eq c) (0x3c ∷ 0x3e ∷ 0x3a ∷ 0x22 ∷ 0x7c ∷ 0x3f ∷ 0x2a ∷ []) || ltb c 0x20

abbrev pub replace_byte : ℕ → ℕ
replace_byte c = if is_replaced c then b'_' else c

-- nameOnly[:maxNameLen] + ext, if the bound leaves a byte for the name.
unfoldable pub limit_length : Bytes → Bytes
limit_length s =
    if ltb max_filename_len (length s)
    then (let e = ext s in
        if ltb (length e) max_filename_len
        then take (max_filename_len - length e) (trim_suffix s e) ++ e
        else s)
    else s

unfoldable pub sanitize_filename : Bytes → Bytes
unfolding is_replaced limit_length
sanitize_filename filename =
    let s = limit_length (trim (map replace_byte filename) (codes " .")) in
    if s == [] then codes "unnamed_file" else s
