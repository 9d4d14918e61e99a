-- ===== src/Database/Counts.antt =====
-- The tables agree: every row of `storage` counts the files that refer to it, has at least one,
-- and has a path of its own; every file has its row of `storage`. What the statements of an upload
-- and of a deletion do to the tables keeps that.
use pot_play_storage.Prelude.{
  ℕ, ◌<◌, ◌≡◌, ◌≢◌, inl, inr, Bytes, List, ◌∷◌, none, some, true, ◌==◌, arith, if◌then◌else◌,
  Option-cases,
}
use pot_play_storage.Prelude.Int.{ℤ, pos, inc}
use pot_play_storage.Model.{Storage}
use pot_play_storage.Database.{
  FileRow, Db, in_integer, find_storage, find_file, references, recount, replace_storage,
}
use pot_play_storage.Database.Laws.{find_storage-replace, HasUniqueIds}

pub record IsCounted (db : Db) : Type 0 where
  pub ids : HasUniqueIds db.files
  pub counted :
      (h : Bytes) (s : Storage)
      → find_storage h db.storage ≡ some s
      → s.reference_count ≡ pos (references h db.files)
  pub used :
      (h : Bytes) (s : Storage) → find_storage h db.storage ≡ some s → 0 < references h db.files
  pub owned : (h : Bytes) → find_storage h db.storage ≡ none → references h db.files ≡ 0
  pub fits :
      (h : Bytes) (s : Storage)
      → find_storage h db.storage ≡ some s
      → in_integer s.reference_count ≡ true
  pub paths :
      (h k : Bytes) (s t : Storage)
      → find_storage h db.storage ≡ some s
      → find_storage k db.storage ≡ some t
      → s.storage_path ≡ t.storage_path
      → h ≡ k

-- No row of `storage` has that path.
abbrev pub IsFreePath : Bytes → Db → Type 0
IsFreePath path db =
    (h : Bytes) (s : Storage) → find_storage h db.storage ≡ some s → s.storage_path ≢ path

-- The tables after a content has been stored for a new file.
abbrev pub with_content : Storage → FileRow → Db → Db
with_content s row db = record { storage = s ∷ db.storage; files = row ∷ db.files }

module _ (db : Db) (c : IsCounted db) (s : Storage) (row : FileRow) where
  pub with_content-IsCounted :
      find_storage s.hash db.storage ≡ none
      → find_file row.id db.files ≡ none
      → IsFreePath s.storage_path db
      → row.storage_hash ≡ s.hash
      → s.reference_count ≡ pos 1
      → IsCounted (with_content s row db)
  unfolding find_storage references in_integer
  with_content-IsCounted new fresh free same one = record {
    ids = (fresh, c.ids);
    counted = λ h t e. ground (arith, c.counted h t, c.owned h);
    used = λ h t e. ground (arith, c.used h t);
    owned = λ h e. ground (arith, c.owned h);
    fits = λ h t e. ground (arith, c.fits h t);
    paths = λ h k t u e e' p. ground (arith, c.paths h k t u, free h t, free k u);
  }

-- What a row found after a change of counts was before.
pub found_before :
    (hash j : Bytes) (n : ℤ) (now : ℕ) (t : List Storage) (s : Storage)
    → find_storage j (replace_storage hash n now t) ≡ some s
    → (old : Storage) × (find_storage j t ≡ some old)
      × (s ≡ (if hash == j then recount n now old else old))
found_before hash j n now t s e = elim (Option-cases (find_storage j t)) [
  | inl absent ↦ absurd (ground (arith, find_storage-replace hash j n now t))
  | inr (old, was) ↦ (old, was, ground (arith, find_storage-replace hash j n now t))
]

-- The tables after a count has been set to n.
abbrev pub with_count : Bytes → ℤ → ℕ → Db → Db
with_count hash n now db = record db { storage = replace_storage hash n now db.storage }

module _ (hash : Bytes) (n : ℤ) (now : ℕ) (db : Db) where
  abbrev after : List Storage
  after = replace_storage hash n now db.storage

  -- Setting a count moves no path and takes no row away.
  pub replace-paths :
      ((h k : Bytes) (s t : Storage)
        → find_storage h db.storage ≡ some s
        → find_storage k db.storage ≡ some t
        → s.storage_path ≡ t.storage_path
        → h ≡ k)
      → (h k : Bytes) (s t : Storage) → find_storage h after ≡ some s
      → find_storage k after ≡ some t
      → s.storage_path ≡ t.storage_path
      → h ≡ k
  replace-paths before h k s t e e' p =
      go (found_before hash h n now db.storage s e) (found_before hash k n now db.storage t e')
    where
      go :
          ((old : Storage) × (find_storage h db.storage ≡ some old)
            × (s ≡ (if hash == h then recount n now old else old)))
          → ((old : Storage) × (find_storage k db.storage ≡ some old)
              × (t ≡ (if hash == k then recount n now old else old)))
          → h ≡ k
      go (a, ea, sa) (b, eb, sb) = ground (arith, before h k a b)

-- What a row found under a key is after a change of counts.
pub found_after :
    (hash j : Bytes) (n : ℤ) (now : ℕ) (t : List Storage)
    → find_storage j (replace_storage hash n now t) ≡ none
    → find_storage j t ≡ none
found_after hash j n now t e = ground (arith, find_storage-replace hash j n now t)

-- The tables after a file has been added to a content that is stored.
abbrev pub with_reference : Storage → ℕ → FileRow → Db → Db
with_reference s now row db = record {
  storage = replace_storage row.storage_hash (inc s.reference_count) now db.storage;
  files = row ∷ db.files;
}

module _ (db : Db) (c : IsCounted db) (s : Storage) (now : ℕ) (row : FileRow) where
  abbrev BeforeReference : (j : Bytes) (t : Storage) → Type 0
  BeforeReference j t =
      (old : Storage) × (find_storage j db.storage ≡ some old)
      × (t ≡ (if row.storage_hash == j then recount (inc s.reference_count) now old else old))

  pub with_reference-IsCounted :
      find_storage row.storage_hash db.storage ≡ some s
      → find_file row.id db.files ≡ none
      → in_integer (inc s.reference_count) ≡ true
      → IsCounted (with_reference s now row db)
  unfolding references
  with_reference-IsCounted stored fresh in_range = record {
    ids = (fresh, c.ids);
    counted = λ h t e. counted h t (found_before row.storage_hash h _ now db.storage t e);
    used = λ h t e. used h t (found_before row.storage_hash h _ now db.storage t e);
    owned = λ h e.
        ground
          (arith, c.owned h, found_after row.storage_hash h (inc s.reference_count) now db.storage);
    fits = λ h t e. fits h t (found_before row.storage_hash h _ now db.storage t e);
    paths = replace-paths row.storage_hash _ now db c.paths;
  }
    where
      fits : (h : Bytes) (t : Storage) → BeforeReference h t → in_integer t.reference_count ≡ true
      fits h t (old, was, e) = ground (arith, c.fits h old)

      counted :
          (h : Bytes) (t : Storage)
          → BeforeReference h t
          → t.reference_count ≡ pos (references h (row ∷ db.files))
      counted h t (old, was, e) = ground (arith, c.counted h old, c.counted h s)

      used : (h : Bytes) (t : Storage) → BeforeReference h t → 0 < references h (row ∷ db.files)
      used h t (old, was, e) = ground (arith, c.used h old)
