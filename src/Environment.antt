-- ===== src/Environment.antt =====
-- What the program takes from outside: failing calls, clocks, identifiers, the checksum and the
-- Unicode case tables. The n-th statement sent to the database fails if `db_fault n` is an error,
-- and has then changed nothing. The n-th call of the cache fails if `cache_fault n` is true.
use pot_play_storage.Prelude.{ℕ, Bytes, Bool, Option, none, ◌≡◌}
use pot_play_storage.Utf8.{CaseTables}
use pot_play_storage.Errors.{Error}

pub record Env : Type 0 where
  pub db_fault : ℕ → Option Error
  pub cache_fault : ℕ → Bool
  -- The rows of the n-th statement break off after the given number of rows, with an error that only
  -- rows.Err() would give.
  pub rows_cut : ℕ → Option ℕ
  -- CURRENT_TIMESTAMP of the n-th statement
  pub timestamp : ℕ → ℕ
  -- time.Now() at its n-th call
  pub now : ℕ → ℕ
  -- uuid.NewString() at its n-th call, which is the text that PostgreSQL prints for the value
  pub uuid : ℕ → Bytes
  -- The value that a text spells for a column of type UUID, as the text that PostgreSQL prints for
  -- it: upper case, braces and missing hyphens are read too. `none` is a text that it refuses.
  pub read_uuid : Bytes → Option Bytes
  -- hex.EncodeToString of the SHA-256 sum
  pub checksum : Bytes → Bytes
  pub case_tables : CaseTables

-- Every statement is carried out.
abbrev pub IsUp : Env → Type 0
IsUp E = (n : ℕ) → E.db_fault n ≡ none
