-- ===== src/Repository/Kept.antt =====
-- Calls that bring no new row: what is found afterwards was there, under the same path.
use mathlib.Core.Path.{subst}
use pot_play_storage.Prelude.{
  ℕ, ◌≡◌, refl, sym, ◌⊎◌, inl, inr, Bytes, some, arith, Bool-cases, Option-cases, ◌==◌, any,
}
use pot_play_storage.Prelude.Int.{ℤ, is_zero}
use pot_play_storage.Model.{Storage}
use pot_play_storage.Environment.{Env}
use pot_play_storage.Database.{
  FileRow, Db, find_storage, find_file, delete_file, remove_storage, delete_unreferenced,
}
use pot_play_storage.Database.Laws.{find_file-remove, find_storage-remove}
use pot_play_storage.Database.Counts.{with_count, found_before}
use pot_play_storage.Repository.{
  increment_storage_ref, decrement_storage_ref, delete_storage, delete_by_id,
}
use pot_play_storage.Repository.Calls.{Repo, exec}
use pot_play_storage.Repository.Statements.{increment_cases, decrement_cases, delete_by_id_cases}
use pot_play_storage.Repository.Covered.{decrement_absent}

pub record IsKept (db db' : Db) : Type 0 where
  pub rows :
      (h : Bytes) (s : Storage)
      → find_storage h db'.storage ≡ some s
      → (old : Storage) × (find_storage h db.storage ≡ some old)
        × (old.storage_path ≡ s.storage_path)
  pub files :
      (j : Bytes) (f : FileRow) → find_file j db'.files ≡ some f → find_file j db.files ≡ some f

same-IsKept : (db : Db) {db' : Db} → db' ≡ db → IsKept db db'
same-IsKept db {db'} e =
    subst (IsKept db) (sym e) (record { rows = λ h s e. (s, e, refl); files = λ j f e. e })

with_count-IsKept :
    (hash : Bytes) (n : ℤ) (now : ℕ) (db : Db) → IsKept db (with_count hash n now db)
with_count-IsKept hash n now db = record {
  rows = λ h s e.
      let (old, was, same) = found_before hash h n now db.storage s e in (old, was, ground arith);
  files = λ j f e. e;
}

module _ (E : Env) where
  pub increment-IsKept :
      (hash : Bytes) (r : Repo) (s : Storage)
      → find_storage hash r.db.storage ≡ some s
      → IsKept r.db (increment_storage_ref E hash r).1.db
  increment-IsKept hash r s there = elim (increment_cases E hash r s there) [
    | inl (_, (now, left), _) ↦ subst (IsKept r.db) (sym left) (with_count-IsKept hash _ now r.db)
    | inr (_, _, left) ↦ same-IsKept r.db left
  ]

  pub decrement-IsKept :
      (hash : Bytes) (r : Repo) → IsKept r.db (decrement_storage_ref E hash r).1.db
  decrement-IsKept hash r = elim (Option-cases (find_storage hash r.db.storage)) [
    | inl absent ↦ same-IsKept r.db (decrement_absent E hash r absent)
    | inr (s, there) ↦ elim (decrement_cases E hash r s there) [
      | inl (_, (now, left)) ↦ subst (IsKept r.db) (sym left) (with_count-IsKept hash _ now r.db)
      | inr (_, _, left) ↦ same-IsKept r.db left
    ]
  ]

  -- The statement removes the row of one content, or none.
  delete_storage_cases :
      (hash : Bytes) (r : Repo)
      → ((delete_storage E hash r).1.db ≡ r.db)
        ⊎ ((delete_storage E hash r).1.db
            ≡ record r.db { storage = remove_storage hash r.db.storage })
  unfolding delete_storage exec delete_unreferenced
  delete_storage_cases hash r = elim (Option-cases (find_storage hash r.db.storage)) [
    | inl absent ↦ inl (ground arith)
    | inr (s, there) ↦
        elim (Bool-cases (any (λ (f : FileRow). f.storage_hash == hash) r.db.files)) [
          | inl used ↦ inl (ground arith)
          | inr free ↦ elim (Bool-cases (is_zero s.reference_count)) [
            | inr left ↦ inl (ground arith)
            | inl last ↦ elim (Option-cases (E.db_fault r.statements)) [
              | inl up ↦ inr (ground arith)
              | inr down ↦ inl (ground arith)
            ]
          ]
        ]
  ]

  pub delete_storage-IsKept : (hash : Bytes) (r : Repo) → IsKept r.db (delete_storage E hash r).1.db
  delete_storage-IsKept hash r = elim (delete_storage_cases hash r) [
    | inl same ↦ same-IsKept r.db same
    | inr removed ↦ subst (IsKept r.db) (sym removed) (record {
      rows = λ h s e. (s, ground (arith, find_storage-remove hash h r.db.storage), refl);
      files = λ j f e. e;
    })
  ]

  pub delete_by_id-IsKept : (id : Bytes) (r : Repo) → IsKept r.db (delete_by_id E id r).1.db
  unfolding delete_file
  delete_by_id-IsKept id r = elim (delete_by_id_cases E id r) [
    | inl (u, _, _, left) ↦ subst (IsKept r.db) (sym left) (record {
      rows = λ h s e. (s, e, refl);
      files = λ j f e. ground (arith, find_file-remove u j r.db.files);
    })
    | inr (_, _, left) ↦ same-IsKept r.db left
  ]
