-- ===== src/Repository/Rows.antt =====
-- internal/repository/file.go: what the queries read from the tables, and the scans of their rows.
use pot_play_storage.Prelude.{
  ℕ, Bytes, codes, List, [], ◌∷◌, Option, none, some, ◌==◌, leb, if◌then◌else◌,
}
use pot_play_storage.Prelude.Int.{ℤ}
use pot_play_storage.Model.{Storage, File}
use pot_play_storage.Errors.{Error, external, Result, ok, err}
use pot_play_storage.Database.{FileRow, Db, no_rows, find_storage, find_file}

-- A row of `files` joined with its row of `storage`, and the legacy fields that are then set.
unfoldable pub joined : FileRow → Storage → File
joined f s = record {
  id = f.id;
  name = f.name;
  storage_hash = f.storage_hash;
  created_at = f.created_at;
  storage = some s;
  size = s.size;
  content_type = s.content_type;
  storage_path = s.storage_path;
  checksum = s.hash;
}

-- Scanning NULL into a plain variable is an error.
pub null_scan : Error
null_scan = external (codes "can't scan NULL into the destination")

legacy_fields : FileRow → Option ℤ → Option Bytes → Option Bytes → Option Bytes → Result File
legacy_fields f (some size) (some content_type) (some checksum) (some path) = ok (record {
  id = f.id;
  name = f.name;
  storage_hash = [];
  created_at = f.created_at;
  storage = none;
  size = size;
  content_type = content_type;
  storage_path = path;
  checksum = checksum;
})
legacy_fields f _ _ _ _ = err null_scan

-- The row as the legacy schema reads it.
unfoldable pub legacy : FileRow → Result File
unfolding legacy_fields
legacy f = legacy_fields f f.size f.content_type f.checksum f.storage_path

-- FROM files f JOIN storage s ON f.storage_hash = s.hash
unfoldable pub join_all : List FileRow → List Storage → List File
unfolding joined find_storage
join_all [] t = []
join_all (f ∷ fs) t =
    let rest = join_all fs t in
    elim (find_storage f.storage_hash t) [ none ↦ rest | some s ↦ joined f s ∷ rest ]

-- ... WHERE f.id = $1
unfoldable pub join_by_id : Bytes → Db → Option File
unfolding find_file find_storage joined
join_by_id id db = elim (find_file id db.files) [
  | none ↦ none
  | some f ↦ elim (find_storage f.storage_hash db.storage) [
    | none ↦ none
    | some s ↦ some (joined f s)
  ]
]

-- ORDER BY created_at DESC, for rows and for files
module _ {A : Type 0} (created_at : A → ℕ) where
  insert_newest : A → List A → List A
  insert_newest x [] = x ∷ []
  insert_newest x (y ∷ ys) =
      if leb (created_at y) (created_at x) then x ∷ y ∷ ys else y ∷ insert_newest x ys

  unfoldable pub newest_first : List A → List A
  unfolding insert_newest
  newest_first [] = []
  newest_first (x ∷ xs) = insert_newest x (newest_first xs)

-- The loop over the rows of the legacy query.
unfoldable pub legacy_files : List FileRow → Result (List File)
unfolding legacy
legacy_files [] = ok []
legacy_files (f ∷ fs) =
    let rest = legacy_files fs in
    elim (legacy f) [
      | err e ↦ err e
      | ok file ↦ elim rest [ err e ↦ err e | ok files ↦ ok (file ∷ files) ]
    ]

unfoldable pub found : {A : Type 0} → Option A → Result A
found none = err no_rows
found (some a) = ok a

-- WHERE f.storage_hash = $1 LIMIT 1
unfoldable pub first_with_hash : Bytes → List FileRow → Option FileRow
first_with_hash hash [] = none
first_with_hash hash (f ∷ fs) = if f.storage_hash == hash then some f else first_with_hash hash fs

-- WHERE checksum = $1 on the legacy column
unfoldable pub first_with_checksum : Bytes → List FileRow → Option FileRow
first_with_checksum sum [] = none
first_with_checksum sum (f ∷ fs) = elim f.checksum [
  | none ↦ first_with_checksum sum fs
  | some c ↦ if c == sum then some f else first_with_checksum sum fs
]
