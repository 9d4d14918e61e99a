-- ===== src/Service/Delete.antt =====
-- Delete keeps the world consistent, when every statement is carried out.
use mathlib.Core.Path.{subst, sym}
use pot_play_storage.Prelude.{
  ℕ, ◌≡◌, ◌≢◌, refl, ap, ◌∙◌, inl, inr, Bytes, [], Option, some, arith, Option-cases,
}
use pot_play_storage.Prelude.Int.{dec}
use pot_play_storage.Model.{Storage}
use pot_play_storage.Errors.{Result-cases}
use pot_play_storage.Environment.{Env, IsUp}
use pot_play_storage.Database.{
  FileRow, Db, references, find_storage, find_file, remove_file, delete_file,
}
use pot_play_storage.Database.Laws.{id-find_file, references-pos}
use pot_play_storage.Database.Counts.{IsCounted}
use pot_play_storage.Database.Removals.{
  without_content, dec-references, dec-in_integer, without_reference-IsCounted,
  without_content-IsCounted, left_row,
}
use pot_play_storage.Backend.{StorageBackend, IsLawful}
use pot_play_storage.Repository.{get_storage_hash_by_file_id, delete_by_id}
use pot_play_storage.Repository.Calls.{Repo}
use pot_play_storage.Repository.Laws.{db-get_storage_hash, get_storage_hash_up, get_storage_hash_ok}
use pot_play_storage.Repository.Statements.{delete_by_id_cases}
use pot_play_storage.Service.{World, release, delete}
use pot_play_storage.Service.Held.{recounted-IsHeld, IsConsistent-of}
use pot_play_storage.Service.State.{IsHeld, IsConsistent, HasChecksums, HasNames}
use pot_play_storage.Service.Released.{Removed, release_cases, DeleteOutcome}

module _ (E : Env) (S : StorageBackend) (up : IsUp E) where
  release-Removed :
      (w0 w : World S) (c : IsCounted w0.repo.db) (f : FileRow) (s : Storage)
      → find_file f.id w0.repo.db.files ≡ some f
      → find_storage f.storage_hash w0.repo.db.storage ≡ some s
      → w.repo.db ≡ delete_file f.id w0.repo.db
      → w.blobs ≡ w0.blobs
      → Removed E S f.id w0 (release E S f.storage_hash w)
  unfolding delete_file
  release-Removed w0 w c f s there stored e b =
      let left = references f.storage_hash (remove_file f.id w0.repo.db.files) in
      let down = dec-references w0.repo.db c f s 0 there stored in
      let (now, split) =
        release_cases E S up f.storage_hash w s left
          (ap (λ (d : Db). find_storage f.storage_hash d.storage) e ∙ stored) down
          (dec-in_integer w0.repo.db c f s 0 (c.fits f.storage_hash s stored) left down)
          (ap (λ (d : Db). references f.storage_hash d.files) e) in
      record {
        file = f;
        record_of = s;
        now = now;
        same_id = refl;
        there = there;
        stored = stored;
        left = ground arith;
      }

  module _ (holds : S.State → Bytes → Option Bytes) (sums : HasChecksums E) where
    delete_there :
        (w : World S) (f : FileRow) (id : Bytes)
        → IsConsistent E S holds w
        → E.read_uuid id ≡ some f.id
        → find_file f.id w.repo.db.files ≡ some f
        → DeleteOutcome E S id w (delete E S id w)
    unfolding delete
    delete_there w f id c reads there =
        elim (Option-cases (find_storage f.storage_hash w.repo.db.storage)) [
          | inl lost ↦ absurd (
              omega (
                arith,
                references-pos f.id w.repo.db.files {f = f} there,
                c.tables.owned f.storage_hash lost,
              ))
          | inr (s, stored) ↦
              rw
                (
                  get_storage_hash_up E id f.id w.repo f (up w.repo.statements) reads there
                      (named s stored),
                  delete,
                )
                (elim (delete_by_id_cases E id r1) [
                  | inr (e, res, left) ↦ rw (res, delete) (inr (e, refl, left ∙ same, refl))
                  | inl (v, read, res, left) ↦
                      rw (res, delete)
                        (inl (
                          refl,
                          (
                            f.id,
                            reads,
                            release-Removed w (record w { repo = (delete_by_id E id r1).1 })
                                c.tables f s there stored
                                (left
                                  ∙ ap (λ (x : Bytes). delete_file x r1.db) (only v read)
                                  ∙ ap (delete_file f.id) same)
                                refl,
                          ),
                        ))
                ])
        ]
      where
        r1 : Repo
        r1 = (get_storage_hash_by_file_id E id w.repo).1

        same : r1.db ≡ w.repo.db
        same = db-get_storage_hash E id w.repo

        only : (v : Bytes) → E.read_uuid id ≡ some v → v ≡ f.id
        only v read = ground arith

        named :
            (s : Storage)
            → find_storage f.storage_hash w.repo.db.storage ≡ some s
            → f.storage_hash ≢ []
        named s stored empty =
            let (content, _, sum, _, _, _) = c.held f.storage_hash s stored in
            sums content (sum ∙ empty)

    pub delete_cases :
        (id : Bytes) (w : World S)
        → IsConsistent E S holds w
        → DeleteOutcome E S id w (delete E S id w)
    unfolding delete
    delete_cases id w c = elim (Result-cases (get_storage_hash_by_file_id E id w.repo).0) [
      | inr (e, res) ↦ rw (res, delete) (inr (e, refl, db-get_storage_hash E id w.repo, refl))
      | inl (hash, res) ↦
          let (u, f, reads, there) = get_storage_hash_ok E id w.repo hash res in
          let same = id-find_file u w.repo.db.files {f = f} there in
          delete_there w f id c (reads ∙ ap some (sym same))
            (ap (λ (i : Bytes). find_file i w.repo.db.files) same ∙ there)
    ]

module _ (E : Env) (S : StorageBackend) (holds : S.State → Bytes → Option Bytes) (up : IsUp E)
    (L : IsLawful S holds) (names : HasNames E S holds L) (sums : HasChecksums E) where
  -- The contents of the other rows stay when a row and its content go.
  removed-IsHeld :
      (db : Db) (c : IsCounted db) (f : FileRow) (s : Storage) (now : ℕ) (blobs : S.State)
      → find_file f.id db.files ≡ some f
      → find_storage f.storage_hash db.storage ≡ some s
      → IsHeld E S holds db blobs
      → IsHeld E S holds (without_content f s now db) (S.delete s.storage_path blobs).1
  removed-IsHeld db c f s now blobs there stored held h t e =
      let (other, was) = left_row db c f s now there stored h t e in
      let (content, lies, sum, size, n, drawn) = held h t was in
      let (_, _, _, _, k, drawn_path) = held f.storage_hash s stored in
      (
        content,
        L.delete_other s.storage_path t.storage_path blobs
              (subst L.IsName (sym drawn_path) (names k))
              (λ p. other (c.paths f.storage_hash h s t stored was p))
            ∙ lies,
        sum,
        size,
        n,
        drawn,
      )

  Removed-IsConsistent :
      (id : Bytes) (w out : World S)
      → IsConsistent E S holds w
      → (m : Removed E S id w out) → IsConsistent E S holds out
  Removed-IsConsistent id w out c m = elim m.left [
    | inl (some_left, db, kept) ↦
        IsConsistent-of E S holds out db kept
          (without_reference-IsCounted w.repo.db c.tables m.file m.record_of m.now m.there m.stored
            some_left)
          (recounted-IsHeld E S holds m.file.storage_hash (dec m.record_of.reference_count) m.now
            w.repo.db (remove_file m.file.id w.repo.db.files) w.blobs c.held)
    | inr (none_left, db, gone) ↦
        IsConsistent-of E S holds out db gone
          (without_content-IsCounted w.repo.db c.tables m.file m.record_of m.now m.there m.stored
            none_left)
          (removed-IsHeld w.repo.db c.tables m.file m.record_of m.now w.blobs m.there m.stored
            c.held)
  ]

  -- If every database statement is carried out, the store is lawful and every identifier is a name
  -- of it and no checksum is empty, a deletion, of whatever outcome, takes a consistent world to a
  -- consistent world.
  pub delete-IsConsistent :
      (id : Bytes) (w : World S)
      → IsConsistent E S holds w
      → IsConsistent E S holds (delete E S id w).1
  delete-IsConsistent id w c = elim (delete_cases E S up holds sums id w c) [
    | inl (_, (u, _, m)) ↦ Removed-IsConsistent u w _ c m
    | inr (e, _, db, blobs) ↦ IsConsistent-of E S holds _ db blobs c.tables c.held
  ]
