-- ===== src/Repository/Calls.antt =====
-- internal/repository/file.go: statements sent to the database and calls of the cache, on the
-- repository's state.
use pot_play_storage.Prelude.{
  ℕ, suc, Bytes, codes, ◌++◌, List, [], ◌∷◌, Option, none, some, ◌==◌, if◌then◌else◌,
}
use pot_play_storage.Model.Encoding.{Json}
use pot_play_storage.Errors.{Result, ok, err}
use pot_play_storage.Environment.{Env}
use pot_play_storage.Database.{Db, invalid_uuid}

-- The counters say how many statements and cache calls have been made.
pub record Repo : Type 0 where
  pub db : Db
  pub cache : List (Bytes × Json)
  pub statements : ℕ
  pub cache_calls : ℕ

abbrev pub Call : Type 0 → Type 0
Call A = Repo → Result A × Repo

unfoldable pub cached : Bytes → List (Bytes × Json) → Option Json
cached key [] = none
cached key ((k, v) ∷ c) = if k == key then some v else cached key c

pub uncached : Bytes → List (Bytes × Json) → List (Bytes × Json)
uncached key [] = []
uncached key ((k, v) ∷ c) = let rest = uncached key c in if k == key then rest else (k, v) ∷ rest

-- fmt.Sprintf("file:%s", id)
abbrev pub file_key : Bytes → Bytes
file_key id = codes "file:" ++ id

abbrev pub list_key : Bytes
list_key = codes "file_list"

abbrev pub tick : Repo → Repo
tick r = record r { statements = suc r.statements }

pub settle : {A : Type 0} → Repo → Result (A × Db) → Result A × Repo
settle r (err e) = (err e, r)
settle r (ok (a, db)) = (ok a, record r { db = db })

-- A statement that returns nothing.
abbrev pub no_result : Result Db → Result (Unit {0} × Db)
no_result (err e) = err e
no_result (ok db) = ok (tt, db)

module _ (E : Env) where
  -- One statement: it fails from outside, or it is carried out at its time.
  unfoldable pub exec : {A : Type 0} → (ℕ → Db → Result (A × Db)) → Call A
  unfolding settle
  exec statement r = elim (E.db_fault r.statements) [
    | some e ↦ (err e, tick r)
    | none ↦ settle (tick r) (statement (E.timestamp r.statements) r.db)
  ]

  -- A statement that only reads.
  unfoldable pub query : {A : Type 0} → (Db → Result A) → Call A
  query read r = elim (E.db_fault r.statements) [
    | some e ↦ (err e, tick r)
    | none ↦ (read r.db, tick r)
  ]

  -- $1 of type UUID, which the database reads from the text that it is given.
  unfoldable pub at_uuid : {A : Type 0} → Bytes → (Bytes → Result A) → Result A
  at_uuid id statement = elim (E.read_uuid id) [ none ↦ err invalid_uuid | some u ↦ statement u ]

  -- cache.Get; a missing key and a failing call are both errors there
  unfoldable pub cache_get : Bytes → Repo → Option Json × Repo
  unfolding cached
  cache_get key r =
      let r' = record r { cache_calls = suc r.cache_calls } in
      if E.cache_fault r.cache_calls then (none, r') else (cached key r.cache, r')

  -- cache.Set and cache.Del, whose errors are dropped
  unfoldable pub cache_set : Bytes → Json → Repo → Repo
  unfolding uncached
  cache_set key v r = record r {
    cache_calls = suc r.cache_calls;
    cache = if E.cache_fault r.cache_calls then r.cache else (key, v) ∷ uncached key r.cache;
  }

  unfoldable pub cache_del : Bytes → Repo → Repo
  unfolding uncached
  cache_del key r = record r {
    cache_calls = suc r.cache_calls;
    cache = if E.cache_fault r.cache_calls then r.cache else uncached key r.cache;
  }
