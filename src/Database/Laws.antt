-- ===== src/Database/Laws.antt =====
-- What the statements do to the rows that a key finds and to the number of references.
use mathlib.Core.Option
use pot_play_storage.Prelude.{
  ℕ, suc, ◌<◌, ◌≡◌, refl, Bytes, List, [], ◌∷◌, none, some, false, ◌==◌, arith, if◌then◌else◌, any,
}
use pot_play_storage.Prelude.Int.{ℤ}
use pot_play_storage.Model.{Storage}
use pot_play_storage.Database.{
  FileRow, find_storage, find_file, references, recount, replace_storage, remove_storage,
  remove_file,
}

pub find_storage-replace :
    (hash j : Bytes) (n : ℤ) (now : ℕ) (t : List Storage)
    → find_storage j (replace_storage hash n now t)
      ≡ (if hash == j then Option.map (recount n now) (find_storage j t) else find_storage j t)
unfolding find_storage replace_storage
find_storage-replace hash j n now [] = ground arith
find_storage-replace hash j n now (s ∷ t) = ground (arith, find_storage-replace hash j n now t)

pub find_storage-remove :
    (hash j : Bytes) (t : List Storage)
    → find_storage j (remove_storage hash t) ≡ (if hash == j then none else find_storage j t)
unfolding find_storage remove_storage
find_storage-remove hash j [] = ground arith
find_storage-remove hash j (s ∷ t) = ground (arith, find_storage-remove hash j t)

pub hash-find_storage :
    (j : Bytes) (t : List Storage) {s : Storage} → find_storage j t ≡ some s → s.hash ≡ j
unfolding find_storage
hash-find_storage j [] e = ground arith
hash-find_storage j (x ∷ t) {s} e = ground (arith, hash-find_storage j t {s = s})

pub find_file-remove :
    (id j : Bytes) (t : List FileRow)
    → find_file j (remove_file id t) ≡ (if id == j then none else find_file j t)
unfolding find_file remove_file
find_file-remove id j [] = ground arith
find_file-remove id j (f ∷ t) = ground (arith, find_file-remove id j t)

-- The primary key of `files`.
abbrev pub HasUniqueIds : List FileRow → Type 0
HasUniqueIds [] = Unit
HasUniqueIds (f ∷ t) = (find_file f.id t ≡ none) × HasUniqueIds t

-- A file without a row of its identifier is not removed.
pub remove_file_absent :
    (id : Bytes) (t : List FileRow) → find_file id t ≡ none → remove_file id t ≡ t
unfolding find_file remove_file
remove_file_absent id [] e = refl
remove_file_absent id (f ∷ t) e = ground (arith, remove_file_absent id t)

-- Removing a file takes one reference from its content, and none from any other.
pub references-remove :
    (hash id : Bytes) (t : List FileRow) {f : FileRow}
    → HasUniqueIds t
    → find_file id t ≡ some f
    → references hash t ≡ (
        if f.storage_hash == hash
        then suc (references hash (remove_file id t))
        else references hash (remove_file id t))
unfolding find_file remove_file references
references-remove hash id [] u e = ground arith
references-remove hash id (g ∷ t) {f} u e =
    ground (arith, references-remove hash id t {f = f} u.1, remove_file_absent id t)

pub remove_file-HasUniqueIds :
    (id : Bytes) (t : List FileRow) → HasUniqueIds t → HasUniqueIds (remove_file id t)
unfolding remove_file
remove_file-HasUniqueIds id [] u = tt
remove_file-HasUniqueIds id (f ∷ t) u =
    ground (arith, remove_file-HasUniqueIds id t u.1, find_file-remove id f.id t)

-- A content with no reference is named by no row, and the other way round.
pub any-references :
    (hash : Bytes) (t : List FileRow)
    → references hash t ≡ 0
    → any (λ (f : FileRow). f.storage_hash == hash) t ≡ false
unfolding references
any-references hash [] e = refl
any-references hash (f ∷ t) e = ground (arith, any-references hash t)

-- A file's content has a reference.
pub references-pos :
    (id : Bytes) (t : List FileRow) {f : FileRow}
    → find_file id t ≡ some f
    → 0 < references f.storage_hash t
unfolding find_file references
references-pos id [] e = ground arith
references-pos id (g ∷ t) {f} e = ground (arith, references-pos id t {f = f})

pub id-find_file : (j : Bytes) (t : List FileRow) {f : FileRow} → find_file j t ≡ some f → f.id ≡ j
unfolding find_file
id-find_file j [] e = ground arith
id-find_file j (x ∷ t) {f} e = ground (arith, id-find_file j t {f = f})
