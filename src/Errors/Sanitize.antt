-- ===== src/Errors/Sanitize.antt =====
-- pkg/errors/security.go
use pot_play_storage.Prelude.{
  String, Bytes, codes, ◌++◌, List, [], ◌∷◌, Option, none, some, ◌||◌, any, if◌then◌else◌,
}
use pot_play_storage.Strings.{contains}
use pot_play_storage.Utf8.{CaseTables, to_lower, to_upper}
use pot_play_storage.Errors.{Error, external, message}

pub record SecurityError : Type 0 where
  pub user_message : Bytes
  pub internal_error : Error
  pub error_code : Bytes

-- (*SecurityError).Error
abbrev pub error : SecurityError → Bytes
error e = e.user_message

-- (*SecurityError).Unwrap
abbrev pub unwrap : SecurityError → Error
unwrap e = e.internal_error

abbrev pub new_security_error : Bytes → Bytes → Error → SecurityError
new_security_error code user_msg internal_err = record {
  user_message = user_msg;
  internal_error = internal_err;
  error_code = code;
}

-- The common errors of the package.
abbrev pub common : String → String → String → SecurityError
common code user_msg internal =
    new_security_error (codes code) (codes user_msg) (external (codes internal))

abbrev pub invalid_path : SecurityError
invalid_path = common "INVALID_PATH" "invalid file path" "path validation failed"

abbrev pub unauthorized : SecurityError
unauthorized = common "UNAUTHORIZED" "unauthorized access" "authentication failed"

abbrev pub forbidden : SecurityError
forbidden = common "FORBIDDEN" "access denied" "authorization failed"

abbrev pub invalid_file_type : SecurityError
invalid_file_type = common "INVALID_FILE" "unsupported file type" "file type validation failed"

abbrev pub too_large : SecurityError
too_large = common "FILE_TOO_LARGE" "file size exceeds limit" "file size validation failed"

abbrev pub invalid_input : SecurityError
invalid_input = common "INVALID_INPUT" "invalid input provided" "input validation failed"

abbrev pub sensitive_keywords : List Bytes
sensitive_keywords =
    codes "/etc/"
    ∷ codes "/var/"
    ∷ codes "/usr/"
    ∷ codes "/home/"
    ∷ codes "/root/"
    ∷ codes "no such file or directory"
    ∷ codes "permission denied"
    ∷ codes "access denied"
    ∷ []

module _ (t : CaseTables) where
  -- The tests of SanitizeError on a message, in their order.
  unfoldable pub sanitize_message : Bytes → Bytes
  sanitize_message msg =
      if contains msg (codes "/")
      then codes "file operation failed"
      else if contains msg (codes "postgres://") || contains msg (codes "password")
      then codes "database connection failed"
      else let lower = to_lower t msg in
        if any (contains lower) sensitive_keywords
        then codes "operation failed"
        else if contains lower (codes "connection refused")
        then codes "service unavailable"
        else if contains lower (codes "timeout")
        then codes "request timeout"
        else codes "internal server error"

  unfoldable pub sanitize_error : Option Error → Bytes
  sanitize_error none = []
  sanitize_error (some e) = sanitize_message (message e)

  abbrev pub file_operation_error : Bytes → Error → SecurityError
  file_operation_error operation e =
      new_security_error (codes "FILE_" ++ (to_upper t operation ++ codes "_FAILED"))
        (codes "file " ++ (operation ++ codes " operation failed")) e
