-- ===== src/Tests/Inputs.antt =====
-- The theorems on names, headers, messages and JSON at concrete inputs.
use pot_play_storage.Prelude.{◌≡◌, ◌↔◌, ◌++◌, some, none, Bytes, codes, List, All}
use pot_play_storage.Model.Json.{without_paths, unmarshal-marshal_file}
use pot_play_storage.Model.Encoding.{marshal_file, unmarshal_file}
use pot_play_storage.Errors.{reserved_name}
use pot_play_storage.Errors.Sanitize.{sanitize_message, sanitize_error}
use pot_play_storage.Errors.Secrecy.{
  IsOneOf, sentences, sanitize_error_closed, sanitize_message_dsn,
}
use pot_play_storage.Validator.{
  validate_filename, validate_file, validate_file_extension, lookup_type, lower_ext, allowed_types,
  sanitize_filename,
}
use pot_play_storage.Validator.Filename.{
  IsSafeName, IsHarmless, validate_filename-IsSafeName, validate_filename-IsHarmless,
}
use pot_play_storage.Validator.Types.{
  IsAcceptable, validate_file-IsAcceptable, validate_file_extension-listed,
}
use pot_play_storage.Validator.Sanitized.{IsClean, sanitize_filename-IsClean}
use pot_play_storage.Tests.{tables, header, first_file, accepted_name}

validate_filename-IsSafeName_example :
    (validate_filename tables (codes "a.txt") ≡ none) ↔ IsSafeName tables (codes "a.txt")
validate_filename-IsSafeName_example = validate_filename-IsSafeName tables (codes "a.txt")

validate_filename-IsHarmless_example : All IsHarmless (codes "a.txt")
validate_filename-IsHarmless_example =
    validate_filename-IsHarmless tables (codes "a.txt") accepted_name

validate_file-IsAcceptable_example :
    (validate_file tables (some header) ≡ none) ↔ IsAcceptable tables header
validate_file-IsAcceptable_example = validate_file-IsAcceptable tables header

validate_file_extension-listed_example : (validate_file_extension tables (codes "a.TXT") ≡ none) ↔ (
    (mimes : List Bytes) × (lookup_type (lower_ext tables (codes "a.TXT")) allowed_types
      ≡ some mimes))
validate_file_extension-listed_example = validate_file_extension-listed tables (codes "a.TXT")

sanitize_filename-IsClean_example : All IsClean (sanitize_filename (codes " a<b>.txt"))
sanitize_filename-IsClean_example = sanitize_filename-IsClean (codes " a<b>.txt")

sanitize_error_closed_example :
    IsOneOf (sanitize_error tables (some (reserved_name (codes "CON")))) sentences
sanitize_error_closed_example = sanitize_error_closed tables (reserved_name (codes "CON"))

sanitize_message_dsn_example :
    sanitize_message tables (codes "dial " ++ (codes "postgres://" ++ codes "u:p@db"))
    ≡ codes "file operation failed"
sanitize_message_dsn_example = sanitize_message_dsn tables (codes "dial ") (codes "u:p@db")

unmarshal-marshal_file_example :
    unmarshal_file (marshal_file first_file) ≡ some (without_paths first_file)
unmarshal-marshal_file_example = unmarshal-marshal_file first_file
