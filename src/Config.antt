-- ===== src/Config.antt =====
-- internal/config/config.go: the settings of the database and of Redis.
pub mod Dsn
use pot_play_storage.Prelude.{
  ℕ, Bytes, codes, List, [], ◌∷◌, ◌++◌, ◌*◌, Option, none, some, ◌==◌, Bool, if◌then◌else◌,
}
use pot_play_storage.Prelude.Int.{ℤ, pos}
use pot_play_storage.Strings.Decimal.{format_int}
use pot_play_storage.Errors.{Error, external, Result, ok, err}

-- What a key of a settings map holds. A float64 is given by the int that it converts to, and `other`
-- is a value of another type, with the name of the type.
pub data Value : Type 0 where
  text : Bytes → Value
  float64 : ℤ → Value
  int : ℤ → Value
  int64 : ℤ → Value
  other : Bytes → Value

abbrev pub Settings : Type 0
Settings = List (Bytes × Value)

-- cfg[key], which is nil for a missing key
unfoldable pub setting : Settings → Bytes → Value
setting [] key = other (codes "<nil>")
setting ((k, v) ∷ settings) key = if k == key then v else setting settings key

-- What a function returns, or that it panics.
pub data Outcome {ℓ} (A : Type ℓ) : Type ℓ where
  made : A → Outcome A
  failed : Error → Outcome A
  panicked : Outcome A

-- cfg[key].(string), which panics on another type
abbrev pub with_text {ℓ} : {A : Type ℓ} → Settings → Bytes → (Bytes → Outcome A) → Outcome A
with_text settings key next = elim (setting settings key) [ text s ↦ next s | _ ↦ panicked ]

abbrev pub to_int : Value → Option ℤ
to_int (float64 n) = some n
to_int (int n) = some n
to_int (int64 n) = some n
to_int _ = none

-- %T
abbrev pub type_name : Value → Bytes
type_name (text s) = codes "string"
type_name (float64 n) = codes "float64"
type_name (int n) = codes "int"
type_name (int64 n) = codes "int64"
type_name (other name) = name

abbrev pub dsn : Bytes → Bytes → Bytes → ℤ → Bytes → Bytes → Bytes
dsn user password host port name ssl_mode =
    codes "postgres://"
    ++ (user
        ++ (codes ":"
            ++ (password
                ++ (codes "@"
                    ++ (host
                        ++ (codes ":"
                            ++ (format_int port
                                ++ (codes "/" ++ (name ++ (codes "?sslmode=" ++ ssl_mode))))))))))

-- pgxpool: reading a connection string, the limits that the code sets, and opening the pool.
pub record Pgx : Type 1 where
  pub PoolConfig : Type 0
  pub Pool : Type 0
  pub parse_config : Bytes → Result PoolConfig
  -- MaxConns, and MaxConnLifetime in minutes
  pub limited : ℕ → ℕ → PoolConfig → PoolConfig
  pub connect : PoolConfig → Result Pool

pub record RedisOptions : Type 0 where
  pub addr : Bytes
  pub password : Bytes
  pub db : ℤ

abbrev pub outcome {ℓ} : {A : Type ℓ} → Result A → Outcome A
outcome (ok a) = made a
outcome (err e) = failed e

abbrev pub open_pool : (P : Pgx) → Bytes → Outcome P.Pool
open_pool P url = elim (P.parse_config url) [
  | err e ↦ failed e
  | ok c ↦ outcome (P.connect (P.limited 10 30 c))
]

-- NewDBPool
unfoldable pub new_db_pool : (P : Pgx) → Settings → Outcome P.Pool
unfolding setting format_int
new_db_pool P cfg = with_text cfg (codes "host") λ host. with_text cfg (codes "user") λ user.
    with_text cfg (codes "password") λ password. with_text cfg (codes "name") λ name.
      with_text cfg (codes "ssl_mode") λ ssl_mode. elim (to_int (setting cfg (codes "port"))) [
        | none ↦
            failed
              (external (codes "invalid port type: " ++ type_name (setting cfg (codes "port"))))
        | some port ↦ open_pool P (dsn user password host port name ssl_mode)
      ]

abbrev pub int_or : ℤ → Value → ℤ
int_or default v = elim (to_int v) [ none ↦ default | some n ↦ n ]

abbrev redis_options : Settings → Bytes → RedisOptions
redis_options cfg host = record {
  addr = host ++ (codes ":" ++ format_int (int_or (pos 6379) (setting cfg (codes "port"))));
  password = [];
  db = int_or (pos 0) (setting cfg (codes "db"));
}

-- NewRedis; none if it panics
unfoldable pub new_redis : Settings → Option RedisOptions
unfolding setting format_int
new_redis cfg = elim (setting cfg (codes "host")) [
  | text host ↦ some (redis_options cfg host)
  | _ ↦ none
]
