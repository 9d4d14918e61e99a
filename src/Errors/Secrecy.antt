-- ===== src/Errors/Secrecy.antt =====
-- What SanitizeError lets through: one of a few fixed sentences.
use pot_play_storage.Prelude.{
  Bytes, codes, List, [], ◌∷◌, ◌++◌, ◌≡◌, ◌⊎◌, inl, inr, refl, sym, ap, ◌∙◌, some, true, ◌||◌, any,
  append_assoc, Bool-cases,
}
use pot_play_storage.Strings.{contains}
use pot_play_storage.Strings.Laws.{IsInfix-contains}
use pot_play_storage.Utf8.{CaseTables, to_lower}
use pot_play_storage.Errors.{Error, message}
use pot_play_storage.Errors.Sanitize.{sensitive_keywords, sanitize_message, sanitize_error}

-- One of the sentences.
abbrev pub IsOneOf : Bytes → List Bytes → Type 0
IsOneOf m [] = ⊥
IsOneOf m (x ∷ xs) = (m ≡ x) ⊎ IsOneOf m xs

abbrev pub sentences : List Bytes
sentences =
    codes "file operation failed"
    ∷ codes "database connection failed"
    ∷ codes "operation failed"
    ∷ codes "service unavailable"
    ∷ codes "request timeout"
    ∷ codes "internal server error"
    ∷ []

module _ (t : CaseTables) where
  sanitize_message_closed : (m : Bytes) → IsOneOf (sanitize_message t m) sentences
  unfolding sanitize_message
  sanitize_message_closed m =
      let lower = to_lower t m in
      elim (Bool-cases (contains m (codes "/"))) [
        | inl a ↦ rw a (inl refl)
        | inr a ↦
            rw a
              (elim (Bool-cases
                (contains m (codes "postgres://") || contains m (codes "password"))) [
                  | inl b ↦ rw b (inr (inl refl))
                  | inr b ↦ rw b (elim (Bool-cases (any (contains lower) sensitive_keywords)) [
                    | inl c ↦ rw c (inr (inr (inl refl)))
                    | inr c ↦
                        rw c (elim (Bool-cases (contains lower (codes "connection refused"))) [
                          | inl d ↦ rw d (inr (inr (inr (inl refl))))
                          | inr d ↦ rw d (elim (Bool-cases (contains lower (codes "timeout"))) [
                            | inl f ↦ rw f (inr (inr (inr (inr (inl refl)))))
                            | inr f ↦ rw f (inr (inr (inr (inr (inr (inl refl))))))
                          ])
                        ])
                  ])
                ])
      ]

  -- Whatever the error, the message for the client is one of six sentences, so nothing of the
  -- error's own text is in it.
  pub sanitize_error_closed : (e : Error) → IsOneOf (sanitize_error t (some e)) sentences
  unfolding sanitize_error
  sanitize_error_closed e = sanitize_message_closed (message e)

  -- A message with a connection string is reported as a failed file operation: the test for a
  -- slash comes first, so the test for "postgres://" is never the one that decides.
  pub sanitize_message_dsn :
      (before after : Bytes)
      → sanitize_message t (before ++ (codes "postgres://" ++ after))
        ≡ codes "file operation failed"
  unfolding sanitize_message
  sanitize_message_dsn before after = rw has_slash
    where
      has_slash : contains (before ++ (codes "postgres://" ++ after)) (codes "/") ≡ true
      has_slash =
          ap (λ (m : Bytes). contains m (codes "/"))
            (sym (append_assoc before (codes "postgres:") (codes "//" ++ after)))
          ∙ IsInfix-contains (before ++ codes "postgres:") (codes "/") (codes "/" ++ after)
