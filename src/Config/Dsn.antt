-- ===== src/Config/Dsn.antt =====
-- How a connection string is read back: the user, the password and the host stand between "//" and
-- the first slash, question mark or number sign, and the credentials end at the last "@".
use pot_play_storage.Prelude.{
  ℕ, ◌≡◌, refl, sym, ap, ◌∙◌, Bytes, codes, [], ◌∷◌, ◌++◌, ◌||◌, Bool, true, false, nat_eq,
  if◌then◌else◌, All, All-append, arith, append_assoc, drop, Option, none, some, ◌≢◌, leb, ◌&&◌,
}
use pot_play_storage.Prelude.Int.{ℤ}
use pot_play_storage.Strings.Decimal.{format_int}
use pot_play_storage.Model.Encoding.{◌>>=◌}
use pot_play_storage.Config.{dsn}

abbrev ends : ℕ → Bool
ends c = nat_eq c b'/' || nat_eq c b'?' || nat_eq c b'#'

-- The text before the first byte that ends it.
unfoldable pub before_end : Bytes → Bytes
before_end [] = []
before_end (c ∷ s) = let rest = before_end s in if ends c then [] else c ∷ rest

-- The authority of a URL whose scheme is "postgres".
unfoldable pub authority : Bytes → Bytes
unfolding before_end
authority url = before_end (drop 11 url)

-- A text that does not end an authority.
abbrev pub IsInAuthority : Bytes → Type 0
IsInAuthority = All (λ c. ends c ≡ false)

before_end-append :
    (s : Bytes) (c : ℕ) (t : Bytes)
    → IsInAuthority s
    → ends c ≡ true
    → before_end (s ++ (c ∷ t)) ≡ s
unfolding before_end
before_end-append [] c t h e = ground arith
before_end-append (b ∷ s) c t h e = ground (arith, before_end-append s c t h.1 e)

-- A text cut at the first and at the last place of a byte.
unfoldable pub cut_first : ℕ → Bytes → Option (Bytes × Bytes)
cut_first c [] = none
cut_first c (b ∷ s) =
    let rest = cut_first c s in
    if nat_eq b c then some ([], s) else elim rest [ none ↦ none | some (x, y) ↦ some (b ∷ x, y) ]

unfoldable pub cut_last : ℕ → Bytes → Option (Bytes × Bytes)
cut_last c [] = none
cut_last c (b ∷ s) = elim (cut_last c s) [
  | some (x, y) ↦ some (b ∷ x, y)
  | none ↦ if nat_eq b c then some ([], s) else none
]

abbrev Lacks : ℕ → Bytes → Type 0
Lacks c = All (λ b. b ≢ c)

pub record Credentials : Type 0 where
  pub user : Bytes
  pub password : Bytes
  pub host : Bytes
  pub port : Bytes

-- The credentials end at the last "@", the user at the first ":" and the host at the last ":".
unfoldable pub read_credentials : Bytes → Option Credentials
unfolding cut_first cut_last
read_credentials a = do
  (userinfo, address) ← cut_last b'@' a
  (user, password) ← cut_first b':' userinfo
  (host, port) ← cut_last b':' address
  some (record { user = user; password = password; host = host; port = port })

-- The characters that stand for themselves in every part of a URL.
abbrev is_unreserved : ℕ → Bool
is_unreserved c =
    (leb b'0' c && leb c b'9')
    || (leb b'A' c && leb c b'Z')
    || (leb b'a' c && leb c b'z')
    || nat_eq c b'-'
    || nat_eq c b'.'
    || nat_eq c b'_'
    || nat_eq c b'~'

abbrev pub IsUnreserved : Bytes → Type 0
IsUnreserved = All (λ c. is_unreserved c ≡ true)

module _ (user password host : Bytes) (port : ℤ) (name ssl_mode : Bytes) where
  abbrev pub address : Bytes
  address = host ++ (b':' ∷ format_int port)

  abbrev pub credentials : Bytes
  credentials = user ++ (b':' ∷ password)

  -- With a slash in the password the host is lost: the authority ends in the password, which the
  -- code does not escape.
  pub authority-dsn_slash :
      (before after : Bytes)
      → IsInAuthority user
      → IsInAuthority before
      → password ≡ before ++ (b'/' ∷ after)
      → authority (dsn user password host port name ssl_mode) ≡ user ++ (b':' ∷ before)
  unfolding authority
  authority-dsn_slash before after hu hb e =
      let tail =
        codes "@"
        ++ (host
            ++ (codes ":"
                ++ (format_int port
                    ++ (codes "/" ++ (name ++ (codes "?sslmode=" ++ ssl_mode)))))) in
      ap (λ (t : Bytes). before_end (user ++ (b':' ∷ t ++ tail))) e
      ∙ ap (λ (t : Bytes). before_end (user ++ (b':' ∷ t)))
          (append_assoc before (b'/' ∷ after) tail)
      ∙ ap before_end (sym (append_assoc user (b':' ∷ before) (b'/' ∷ after ++ tail)))
      ∙ before_end-append (user ++ (b':' ∷ before)) b'/' (after ++ tail)
          (All-append _ user (b':' ∷ before) hu (refl, hb)) refl
