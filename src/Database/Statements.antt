-- ===== src/Database/Statements.antt =====
-- When the statements succeed, and what they leave.
use pot_play_storage.Prelude.{
  ℕ, ◌≡◌, ◌≢◌, refl, inl, inr, Bytes, List, [], ◌∷◌, none, some, Bool, true, false, ◌||◌, ◌==◌,
  arith, any, Bool-cases, Option-cases,
}
use pot_play_storage.Prelude.Int.{ℤ, is_zero}
use pot_play_storage.Model.{Storage}
use pot_play_storage.Errors.{ok, err}
use pot_play_storage.Database.{
  FileRow, Db, out_of_range, find_storage, find_file, in_integer, references, insert_storage,
  update_count, delete_unreferenced, remove_storage, insert_file,
}
use pot_play_storage.Database.Laws.{any-references}
use pot_play_storage.Database.Counts.{IsFreePath, with_count}

abbrev clashes : Storage → Storage → Bool
clashes s t = t.hash == s.hash || t.storage_path == s.storage_path

no_clash-find :
    (s : Storage) (t : List Storage) → any (clashes s) t ≡ false → find_storage s.hash t ≡ none
unfolding find_storage
no_clash-find s [] h = refl
no_clash-find s (x ∷ t) h = ground (arith, no_clash-find s t)

no_clash-free :
    (s : Storage) (t : List Storage) (h : Bytes) (u : Storage)
    → any (clashes s) t ≡ false
    → find_storage h t ≡ some u
    → u.storage_path ≢ s.storage_path
unfolding find_storage
no_clash-free s [] h u no_clash e = ground arith
no_clash-free s (x ∷ t) h u no_clash e = ground (arith, no_clash-free s t h u)

-- A row that is inserted brings a new hash and a new path.
pub insert_storage-ok :
    (s : Storage) (db db' : Db)
    → insert_storage s db ≡ ok db'
    → (db' ≡ record db { storage = s ∷ db.storage })
      × (find_storage s.hash db.storage ≡ none)
      × IsFreePath s.storage_path db
unfolding insert_storage
insert_storage-ok s db db' e = elim (Bool-cases (any (clashes s) db.storage)) [
  | inl clash ↦ absurd (ground arith)
  | inr new ↦ (
    ground arith,
    no_clash-find s db.storage new,
    λ h u there. no_clash-free s db.storage h u new there,
  )
]

-- A row that is inserted brings a new identifier, and its content is there.
pub insert_file-ok :
    (row : FileRow) (db db' : Db)
    → insert_file (some row.storage_hash) row db ≡ ok db'
    → (db' ≡ record db { files = row ∷ db.files })
      × (find_file row.id db.files ≡ none)
      × ((s : Storage) × (find_storage row.storage_hash db.storage ≡ some s))
unfolding insert_file
insert_file-ok row db db' e = elim (Option-cases (find_storage row.storage_hash db.storage)) [
  | inl absent ↦ absurd (ground arith)
  | inr (s, there) ↦ (ground arith, ground arith, (s, there))
]

pub insert_file_new :
    (row : FileRow) (db : Db) (s : Storage)
    → find_file row.id db.files ≡ none
    → find_storage row.storage_hash db.storage ≡ some s
    → insert_file (some row.storage_hash) row db ≡ ok (record db { files = row ∷ db.files })
unfolding insert_file
insert_file_new row db s new there = ground arith

module _ (change : ℤ → ℤ) (hash : Bytes) (now : ℕ) (db : Db) where
  pub update_count_found :
      (s : Storage)
      → find_storage hash db.storage ≡ some s
      → in_integer (change s.reference_count) ≡ true
      → update_count change hash now db
        ≡ ok (some (change s.reference_count), with_count hash (change s.reference_count) now db)
  unfolding update_count
  update_count_found s there fits = ground arith

  pub update_count_absent :
      find_storage hash db.storage ≡ none → update_count change hash now db ≡ ok (none, db)
  unfolding update_count
  update_count_absent absent = ground arith

  pub update_count_overflow :
      (s : Storage)
      → find_storage hash db.storage ≡ some s
      → in_integer (change s.reference_count) ≡ false
      → update_count change hash now db ≡ err out_of_range
  unfolding update_count
  update_count_overflow s there over = ground arith

-- A row with references stays, whatever its count.
pub delete_unreferenced_counted :
    (hash : Bytes) (db : Db) (s : Storage)
    → find_storage hash db.storage ≡ some s
    → is_zero s.reference_count ≡ false
    → delete_unreferenced hash db ≡ ok db
unfolding delete_unreferenced
delete_unreferenced_counted hash db s there some_left = ground arith

pub delete_unreferenced_last :
    (hash : Bytes) (db : Db) (s : Storage)
    → find_storage hash db.storage ≡ some s
    → is_zero s.reference_count ≡ true
    → references hash db.files ≡ 0
    → delete_unreferenced hash db ≡ ok (record db { storage = remove_storage hash db.storage })
unfolding delete_unreferenced
delete_unreferenced_last hash db s there zero_count free =
    ground (arith, any-references hash db.files)
