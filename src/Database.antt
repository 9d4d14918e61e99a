-- ===== src/Database.antt =====
-- migrations/001_initial.sql and the statements of internal/repository/file.go: two tables with
-- their keys and constraints. No statement relies on the order of a table's rows, except by
-- ORDER BY and LIMIT 1, for which the rows stand with the newest first.
pub mod Laws
pub mod Counts
pub mod Removals
pub mod Statements
pub mod Covered
use pot_play_storage.Prelude.{
  ℕ, zero, suc, Bytes, codes, List, [], ◌∷◌, Option, none, some, Bool, true, false, ◌&&◌, ◌||◌, leb,
  ltb, ◌==◌, any, if◌then◌else◌,
}
use pot_play_storage.Prelude.Int.{ℤ, pos, negsuc, inc, dec, is_zero}
use pot_play_storage.Model.{Storage}
use pot_play_storage.Errors.{Error, external, Result, ok, err}

-- A row of the table `files`. A UUID is the text that PostgreSQL prints for it. The four legacy columns may be NULL.
pub record FileRow : Type 0 where
  pub id : Bytes
  pub name : Bytes
  pub storage_hash : Bytes
  pub created_at : ℕ
  pub size : Option ℤ
  pub content_type : Option Bytes
  pub storage_path : Option Bytes
  pub checksum : Option Bytes

pub record Db : Type 0 where
  pub storage : List Storage
  pub files : List FileRow

-- pgx.ErrNoRows
pub no_rows : Error
no_rows = external (codes "no rows in result set")

pub unique_violation : Error
unique_violation =
    external (codes "ERROR: duplicate key value violates unique constraint (SQLSTATE 23505)")

pub foreign_key_violation : Error
foreign_key_violation = external (codes "ERROR: violates foreign key constraint (SQLSTATE 23503)")

pub not_null_violation : Error
not_null_violation = external (codes "ERROR: violates not-null constraint (SQLSTATE 23502)")

pub invalid_uuid : Error
invalid_uuid = external (codes "ERROR: invalid input syntax for type uuid (SQLSTATE 22P02)")

pub out_of_range : Error
out_of_range = external (codes "ERROR: integer out of range (SQLSTATE 22003)")

-- WHERE hash = $1 on `storage`
unfoldable pub find_storage : Bytes → List Storage → Option Storage
find_storage hash [] = none
find_storage hash (s ∷ t) = if s.hash == hash then some s else find_storage hash t

-- WHERE id = $1 on `files`, for the value of $1
unfoldable pub find_file : Bytes → List FileRow → Option FileRow
find_file id [] = none
find_file id (f ∷ t) = if f.id == id then some f else find_file id t

-- The number of files that refer to a content.
unfoldable pub references : Bytes → List FileRow → ℕ
references hash [] = 0
references hash (f ∷ t) = let n = references hash t in if f.storage_hash == hash then suc n else n

-- The range of INTEGER.
unfoldable pub in_integer : ℤ → Bool
in_integer (pos n) = leb n 2147483647
in_integer (negsuc n) = ltb n 2147483648

-- INSERT INTO storage: the primary key and UNIQUE (storage_path) are checked.
unfoldable pub insert_storage : Storage → Db → Result Db
insert_storage s db =
    if any (λ (t : Storage). t.hash == s.hash || t.storage_path == s.storage_path) db.storage
    then err unique_violation
    else ok (record db { storage = s ∷ db.storage })

-- The row with its new count. The trigger on the table sets updated_at, as the statement does.
abbrev pub recount : ℤ → ℕ → Storage → Storage
recount n now s = record s { reference_count = n; updated_at = now }

unfoldable pub replace_storage : Bytes → ℤ → ℕ → List Storage → List Storage
replace_storage hash n now [] = []
replace_storage hash n now (s ∷ t) =
    (if s.hash == hash then recount n now s else s) ∷ replace_storage hash n now t

-- UPDATE storage SET reference_count = change(reference_count), with the new count if a row is there
unfoldable pub update_count : (ℤ → ℤ) → Bytes → ℕ → Db → Result (Option ℤ × Db)
update_count change hash now db = elim (find_storage hash db.storage) [
  | none ↦ ok (none, db)
  | some s ↦
      let n = change s.reference_count in
      if in_integer n
      then ok (some n, record db { storage = replace_storage hash n now db.storage })
      else err out_of_range
]

unfoldable pub remove_storage : Bytes → List Storage → List Storage
remove_storage hash [] = []
remove_storage hash (s ∷ t) =
    let rest = remove_storage hash t in if s.hash == hash then rest else s ∷ rest

-- DELETE FROM storage WHERE hash = $1 AND reference_count = 0; ON DELETE RESTRICT is checked.
unfoldable pub delete_unreferenced : Bytes → Db → Result Db
delete_unreferenced hash db = elim (find_storage hash db.storage) [
  | none ↦ ok db
  | some s ↦
      if is_zero s.reference_count
      then (if any (λ (f : FileRow). f.storage_hash == hash) db.files
          then err foreign_key_violation
          else ok (record db { storage = remove_storage hash db.storage }))
      else ok db
]

-- INSERT INTO files, with NULL for a storage_hash that the statement leaves out.
unfoldable pub insert_file : Option Bytes → FileRow → Db → Result Db
insert_file none row db = err not_null_violation
insert_file (some hash) row db = elim (find_file row.id db.files) [
  | some _ ↦ err unique_violation
  | none ↦ elim (find_storage hash db.storage) [
    | none ↦ err foreign_key_violation
    | some _ ↦ ok (record db { files = record row { storage_hash = hash } ∷ db.files })
  ]
]

unfoldable pub remove_file : Bytes → List FileRow → List FileRow
remove_file id [] = []
remove_file id (f ∷ t) = let rest = remove_file id t in if f.id == id then rest else f ∷ rest

-- DELETE FROM files WHERE id = $1, for the value of $1
unfoldable pub delete_file : Bytes → Db → Db
delete_file id db = record db { files = remove_file id db.files }
