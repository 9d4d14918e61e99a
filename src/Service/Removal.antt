-- ===== src/Service/Removal.antt =====
-- What a client sees of a deletion.
use mathlib.Core.Path.{subst, subst₂}
use pot_play_storage.Prelude.{
  ℕ, ◌≡◌, ◌≢◌, sym, ap, inl, inr, Bytes, Option, none, some, arith, Option-cases, ◌==◌,
  if◌then◌else◌,
}
use pot_play_storage.Prelude.Int.{dec}
use pot_play_storage.Model.{Storage}
use pot_play_storage.Errors.{ok}
use pot_play_storage.Environment.{Env, IsUp}
use pot_play_storage.Database.{FileRow, Db, find_storage, find_file, references, remove_file}
use pot_play_storage.Database.Laws.{
  find_storage-replace, find_storage-remove, find_file-remove, references-pos,
}
use pot_play_storage.Database.Counts.{IsCounted}
use pot_play_storage.Database.Removals.{without_reference, without_content}
use pot_play_storage.Backend.{StorageBackend, IsLawful}
use pot_play_storage.Service.{World, delete}
use pot_play_storage.Service.Delete.{delete_cases}
use pot_play_storage.Service.Released.{Removed}
use pot_play_storage.Service.View.{content_at, row_content, content_of-at}
use pot_play_storage.Service.State.{IsConsistent, HasChecksums, content_of, HasNames}

module _ (S : StorageBackend) (holds : S.State → Bytes → Option Bytes) (L : IsLawful S holds)
    (db : Db) (c : IsCounted db) (blobs : S.State) (f : FileRow) (s : Storage) (now : ℕ)
    (stored : find_storage f.storage_hash db.storage ≡ some s)
    (named : L.IsName s.storage_path) where
  abbrev Shown : Db → S.State → Bytes → Type 0
  Shown db' blobs' j =
      content_at S holds db' blobs' j ≡ (if f.id == j then none else content_at S holds db blobs j)

  Shown-left : (j : Bytes) → Shown (without_reference f s now db) blobs j
  unfolding content_at row_content
  Shown-left j = elim (Option-cases (find_file j db.files)) [
    | inl absent ↦ ground (arith, find_file-remove f.id j db.files)
    | inr (g, there) ↦ ground (
      arith,
      find_file-remove f.id j db.files,
      find_storage-replace f.storage_hash g.storage_hash (dec s.reference_count) now db.storage,
    )
  ]

  -- No file that is left has the content that goes.
  other_content :
      (j : Bytes) (g : FileRow)
      → references f.storage_hash (remove_file f.id db.files) ≡ 0
      → find_file j (remove_file f.id db.files) ≡ some g
      → f.storage_hash ≢ g.storage_hash
  other_content j g none_left there same = absurd (
      omega (
        arith,
        references-pos j (remove_file f.id db.files) {f = g} there,
        none_left,
        ap (λ (h : Bytes). references h (remove_file f.id db.files)) same,
      ))

  -- The bytes of a row of another content stay.
  kept_bytes :
      (g : FileRow) (t : Storage)
      → find_storage g.storage_hash db.storage ≡ some t
      → f.storage_hash ≢ g.storage_hash
      → holds (S.delete s.storage_path blobs).1 t.storage_path ≡ holds blobs t.storage_path
  kept_bytes g t found other =
      L.delete_other s.storage_path t.storage_path blobs named
        (λ p. other (c.paths f.storage_hash g.storage_hash s t stored found p))

  Shown-gone :
      (j : Bytes)
      → references f.storage_hash (remove_file f.id db.files) ≡ 0
      → Shown (without_content f s now db) (S.delete s.storage_path blobs).1 j
  unfolding content_at row_content
  Shown-gone j none_left = elim (Option-cases (find_file j (remove_file f.id db.files))) [
    | inl absent ↦ ground (arith, find_file-remove f.id j db.files)
    | inr (g, there) ↦
        let other = other_content j g none_left there in
        let removed =
          find_storage-remove f.storage_hash g.storage_hash
            (without_reference f s now db).storage in
        let replaced =
          find_storage-replace f.storage_hash g.storage_hash (dec s.reference_count) now
            db.storage in
        elim (Option-cases (find_storage g.storage_hash db.storage)) [
          | inl lost ↦ ground (arith, find_file-remove f.id j db.files, removed, replaced, other)
          | inr (t, found) ↦ ground (
            arith,
            find_file-remove f.id j db.files,
            removed,
            replaced,
            other,
            kept_bytes g t found other,
          )
        ]
  ]

module _ (E : Env) (S : StorageBackend) (holds : S.State → Bytes → Option Bytes) (up : IsUp E)
    (L : IsLawful S holds) (names : HasNames E S holds L) (sums : HasChecksums E) where
  Shown-Removed :
      (id : Bytes) (w out : World S) (j : Bytes)
      → IsConsistent E S holds w
      → Removed E S id w out
      → content_of E S holds out j ≡ (if id == j then none else content_of E S holds w j)
  Shown-Removed id w out j c m =
      let (_, _, _, _, n, drawn) = c.held m.file.storage_hash m.record_of m.stored in
      let named = subst L.IsName (sym drawn) (names n) in
      rw (content_of-at, content_of-at, ← m.same_id)
        (elim m.left [
          | inl (some_left, db, kept) ↦
              subst₂
                (λ (d : Db) (b : S.State).
                  Shown S holds L w.repo.db c.tables w.blobs m.file m.record_of m.now m.stored named
                    d b j)
                (sym db) (sym kept)
                (Shown-left S holds L w.repo.db c.tables w.blobs m.file m.record_of m.now m.stored
                  named j)
          | inr (none_left, db, gone) ↦
              subst₂
                (λ (d : Db) (b : S.State).
                  Shown S holds L w.repo.db c.tables w.blobs m.file m.record_of m.now m.stored named
                    d b j)
                (sym db) (sym gone)
                (Shown-gone S holds L w.repo.db c.tables w.blobs m.file m.record_of m.now m.stored
                  named j none_left)
        ])

  -- After a successful deletion the file whose identifier the given text spells has no content, and
  -- every other file has the content that it had, files of the same content included. A text that
  -- spells no identifier is not deleted with success. That is so if every statement is carried out, the
  -- store is lawful and every identifier is a name of it, no checksum is empty and the world is
  -- consistent.
  pub content_of-delete :
      (id : Bytes) (w : World S)
      → IsConsistent E S holds w
      → (delete E S id w).0 ≡ ok tt
      → (u : Bytes) × (E.read_uuid id ≡ some u)
        × ((j : Bytes)
            → content_of E S holds (delete E S id w).1 j
              ≡ (if u == j then none else content_of E S holds w j))
  content_of-delete id w c done = elim (delete_cases E S up holds sums id w c) [
    | inl (_, (u, reads, m)) ↦ (u, reads, λ j. Shown-Removed u w _ j c m)
    | inr (e, failed, _, _) ↦ absurd (ground arith)
  ]
