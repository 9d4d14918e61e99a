-- ===== src/Database/Removals.antt =====
-- What the statements of a deletion do to the tables: they keep them counted.
use pot_play_storage.Prelude.{ℕ, ◌<◌, ◌≡◌, ◌≢◌, Bytes, none, some, true, ◌==◌, arith, if◌then◌else◌}
use pot_play_storage.Prelude.Int.{pos, dec}
use pot_play_storage.Model.{Storage}
use pot_play_storage.Database.{
  FileRow, Db, in_integer, find_storage, find_file, references, recount, replace_storage,
  remove_storage, remove_file,
}
use pot_play_storage.Database.Laws.{
  find_storage-replace, find_storage-remove, references-remove, remove_file-HasUniqueIds,
}
use pot_play_storage.Database.Counts.{IsCounted, found_before, found_after, replace-paths}

-- The tables after a file has been removed and its content's count lowered.
abbrev pub without_reference : FileRow → Storage → ℕ → Db → Db
without_reference f s now db = record {
  storage = replace_storage f.storage_hash (dec s.reference_count) now db.storage;
  files = remove_file f.id db.files;
}

-- The tables after the last file of a content has been removed, and the content with it.
abbrev pub without_content : FileRow → Storage → ℕ → Db → Db
without_content f s now db = record {
  storage = remove_storage f.storage_hash (without_reference f s now db).storage;
  files = remove_file f.id db.files;
}

module _ (db : Db) (c : IsCounted db) (f : FileRow) (s : Storage) (now : ℕ) where
  -- The lowered count is the number of files that are left.
  pub dec-in_integer :
      in_integer s.reference_count ≡ true
      → (n : ℕ) → dec s.reference_count ≡ pos n
      → in_integer (dec s.reference_count) ≡ true
  unfolding in_integer
  dec-in_integer in_range n e = ground arith

  pub dec-references :
      find_file f.id db.files ≡ some f
      → find_storage f.storage_hash db.storage ≡ some s
      → dec s.reference_count ≡ pos (references f.storage_hash (remove_file f.id db.files))
  dec-references there stored = ground (
    arith,
    c.counted f.storage_hash s,
    references-remove f.storage_hash f.id db.files {f = f} c.ids,
  )

  abbrev BeforeRemoval : (j : Bytes) (t : Storage) → Type 0
  BeforeRemoval j t =
      (old : Storage) × (find_storage j db.storage ≡ some old)
      × (t ≡ (if f.storage_hash == j then recount (dec s.reference_count) now old else old))

  module _ (there : find_file f.id db.files ≡ some f)
      (stored : find_storage f.storage_hash db.storage ≡ some s) where
    counted_after :
        (h : Bytes) (t : Storage)
        → BeforeRemoval h t
        → t.reference_count ≡ pos (references h (remove_file f.id db.files))
    counted_after h t (old, was, e) =
        ground
          (arith, c.counted h old, references-remove h f.id db.files {f = f} c.ids, dec-references)

    used_after :
        (h : Bytes) (t : Storage)
        → (f.storage_hash ≡ h → 0 < references h (remove_file f.id db.files))
        → BeforeRemoval h t
        → 0 < references h (remove_file f.id db.files)
    used_after h t left (old, was, e) =
        ground (arith, c.used h old, references-remove h f.id db.files {f = f} c.ids)

    fits_after : (h : Bytes) (t : Storage) → BeforeRemoval h t → in_integer t.reference_count ≡ true
    fits_after h t (old, was, e) = ground (
      arith,
      c.fits h old,
      dec-in_integer (c.fits f.storage_hash s stored) _ (dec-references there stored),
    )

    owned_after :
        (h : Bytes)
        → find_storage h db.storage ≡ none
        → references h (remove_file f.id db.files) ≡ 0
    owned_after h e = ground (arith, c.owned h, references-remove h f.id db.files {f = f} c.ids)

    pub without_reference-IsCounted :
        0 < references f.storage_hash (remove_file f.id db.files)
        → IsCounted (without_reference f s now db)
    without_reference-IsCounted left = record {
      ids = remove_file-HasUniqueIds f.id db.files c.ids;
      counted = λ h t e. counted_after h t (found_before f.storage_hash h _ now db.storage t e);
      used = λ h t e.
          used_after h t (λ same. ground arith)
            (found_before f.storage_hash h _ now db.storage t e);
      owned = λ h e. owned_after h (found_after f.storage_hash h _ now db.storage e);
      fits = λ h t e. fits_after h t (found_before f.storage_hash h _ now db.storage t e);
      paths = replace-paths f.storage_hash _ now db c.paths;
    }

    -- A row that is left after the removal was there, under another hash.
    pub left_row :
        (h : Bytes) (t : Storage)
        → find_storage h (without_content f s now db).storage ≡ some t
        → (f.storage_hash ≢ h) × (find_storage h db.storage ≡ some t)
    left_row h t e = ground (
      arith,
      find_storage-remove f.storage_hash h (without_reference f s now db).storage,
      find_storage-replace f.storage_hash h (dec s.reference_count) now db.storage,
    )

    pub without_content-IsCounted :
        references f.storage_hash (remove_file f.id db.files) ≡ 0
        → IsCounted (without_content f s now db)
    without_content-IsCounted none_left = record {
      ids = remove_file-HasUniqueIds f.id db.files c.ids;
      counted = λ h t e.
          let (other, was) = left_row h t e in
          ground (arith, c.counted h t, references-remove h f.id db.files {f = f} c.ids);
      used = λ h t e.
          let (other, was) = left_row h t e in
          ground (arith, c.used h t, references-remove h f.id db.files {f = f} c.ids);
      owned = λ h e. ground (
        arith,
        c.owned h,
        references-remove h f.id db.files {f = f} c.ids,
        find_storage-remove f.storage_hash h (without_reference f s now db).storage,
        find_storage-replace f.storage_hash h (dec s.reference_count) now db.storage,
      );
      fits = λ h t e. let (other, was) = left_row h t e in c.fits h t was;
      paths = λ h k t u e e' p.
          let (_, was) = left_row h t e in
          let (_, was') = left_row k u e' in c.paths h k t u was was' p;
    }
