-- ===== src/Database/Covered.antt =====
-- Counts that are never too low, whatever statement fails: a content has at least as many
-- references counted as files refer to it, and some to spare between the statements of a call.
use mathlib.Core.Option
use mathlib.Core.Path.{subst}
use pot_play_storage.Prelude.{
  ℕ, zero, suc, ◌+◌, ◌≤◌, ◌≡◌, sym, ap, ◌∙◌, inl, inr, Bytes, List, [], ◌∷◌, Option, none, some,
  true, ◌==◌, ==_iff, arith, if◌then◌else◌, Bool-cases,
}
use pot_play_storage.Prelude.Int.{pos, inc, dec, is_zero}
use pot_play_storage.Model.{Storage}
use pot_play_storage.Database.{
  FileRow, Db, find_storage, find_file, references, recount, remove_storage, remove_file,
}
use pot_play_storage.Database.Laws.{find_storage-replace, find_storage-remove}
use pot_play_storage.Database.Counts.{with_count}

-- A content with k references: its row counts at least k, and without a row there is none.
unfoldable pub Counts : Option Storage → ℕ → Type 0
Counts none k = k ≡ 0
Counts (some s) k = (n : ℕ) × (s.reference_count ≡ pos n) × (k ≤ n)

Counts-weaken : (o : Option Storage) (k m : ℕ) → m ≤ k → Counts o k → Counts o m
unfolding Counts
Counts-weaken none k m le c = omega arith
Counts-weaken (some s) k m le (n, e, b) = (n, e, omega arith)

Counts-inc :
    (s : Storage) (k now : ℕ)
    → Counts (some s) k
    → Counts (some (recount (inc s.reference_count) now s)) (k + 1)
unfolding Counts
Counts-inc s k now (n, e, b) = (suc n, ap inc e, omega arith)

Counts-dec :
    (s : Storage) (k now : ℕ)
    → Counts (some s) (k + 1)
    → Counts (some (recount (dec s.reference_count) now s)) k
unfolding Counts
Counts-dec s k now (zero, e, b) = absurd (omega arith)
Counts-dec s k now (suc n, e, b) = (n, ap dec e, omega arith)

Counts-some : (s : Storage) (k : ℕ) (n : ℕ) → s.reference_count ≡ pos n → k ≤ n → Counts (some s) k
unfolding Counts
Counts-some s k n e le = (n, e, le)

Counts-empty : (k : ℕ) → k ≡ 0 → Counts none k
unfolding Counts
Counts-empty k e = e

-- Without a row there is no reference.
Counts-none : (k : ℕ) → Counts none k → k ≡ 0
unfolding Counts
Counts-none k c = c

-- The row under a hash is the row under an equal hash.
same_row :
    (hash h : Bytes) (t : List Storage) {o : Option Storage}
    → (hash == h) ≡ true
    → find_storage hash t ≡ o
    → find_storage h t ≡ o
same_row hash h t same e = ap (λ (x : Bytes). find_storage x t) (sym ((==_iff hash h).0 same)) ∙ e

Counts-same_row :
    (hash h : Bytes) (t : List Storage) {o : Option Storage} (k m : ℕ)
    → (hash == h) ≡ true
    → find_storage hash t ≡ o
    → m ≤ k
    → Counts (find_storage h t) k
    → Counts o m
Counts-same_row hash h t {o} k m same e le c =
    Counts-weaken o k m le
      (subst (λ (x : Option Storage). Counts x k) (same_row hash h t {o = o} same e) c)

-- Each content has its references counted, and so many more.
abbrev pub IsCovered : (Bytes → ℕ) → Db → Type 0
IsCovered spare db =
    (h : Bytes) → Counts (find_storage h db.storage) (references h db.files + spare h)

abbrev pub nothing : Bytes → ℕ
nothing h = 0

abbrev pub one : Bytes → Bytes → ℕ
one hash h = if hash == h then 1 else 0

pub unspared-IsCovered : (hash : Bytes) (db : Db) → IsCovered (one hash) db → IsCovered nothing db
unspared-IsCovered hash db c h = Counts-weaken (find_storage h db.storage) _ _ (ground arith) (c h)

pub new_content-IsCovered :
    (s : Storage) (db : Db)
    → find_storage s.hash db.storage ≡ none
    → s.reference_count ≡ pos 1
    → IsCovered nothing db
    → IsCovered (one s.hash) (record db { storage = s ∷ db.storage })
unfolding find_storage
new_content-IsCovered s db new single c h = elim (Bool-cases (s.hash == h)) [
  | inl same ↦
      rw (same, if◌then◌else◌)
        (Counts-some s _ 1 single (
          omega (
            arith,
            Counts-none (references h db.files + 0) (
                Counts-same_row s.hash h db.storage {o = none} (references h db.files + 0)
                  (references h db.files + 0) same new (omega arith) (c h)),
          )))
  | inr other ↦ rw (other, if◌then◌else◌) (c h)
]

pub new_reference-IsCovered :
    (hash : Bytes) (s : Storage) (now : ℕ) (db : Db)
    → find_storage hash db.storage ≡ some s
    → IsCovered nothing db
    → IsCovered (one hash) (with_count hash (inc s.reference_count) now db)
new_reference-IsCovered hash s now db there c h =
    rw find_storage-replace (elim (Bool-cases (hash == h)) [
      | inl same ↦
          rw (same, if◌then◌else◌)
            (subst
              (λ (o : Option Storage).
                Counts (Option.map (recount (inc s.reference_count) now) o)
                  (references h db.files + 1))
              (sym (same_row hash h db.storage {o = some s} same there))
              (Counts-inc s (references h db.files) now (
                Counts-same_row hash h db.storage {o = some s} _ (references h db.files) same there
                  (ground arith) (c h))))
      | inr other ↦ rw (other, if◌then◌else◌) (c h)
    ])

pub new_file-IsCovered :
    (row : FileRow) (db : Db)
    → IsCovered (one row.storage_hash) db
    → IsCovered nothing (record db { files = row ∷ db.files })
unfolding references
new_file-IsCovered row db c h = Counts-weaken (find_storage h db.storage) _ _ (ground arith) (c h)

pub no_reference-IsCovered :
    (hash : Bytes) (s : Storage) (now : ℕ) (db : Db)
    → find_storage hash db.storage ≡ some s
    → IsCovered (one hash) db
    → IsCovered nothing (with_count hash (dec s.reference_count) now db)
no_reference-IsCovered hash s now db there c h =
    rw find_storage-replace (elim (Bool-cases (hash == h)) [
      | inl same ↦
          rw (same, if◌then◌else◌)
            (subst
              (λ (o : Option Storage).
                Counts (Option.map (recount (dec s.reference_count) now) o)
                  (references h db.files + nothing h))
              (sym (same_row hash h db.storage {o = some s} same there))
              (Counts-dec s (references h db.files + nothing h) now (
                Counts-same_row hash h db.storage {o = some s} _
                  (references h db.files + nothing h + 1) same there (ground arith) (c h))))
      | inr other ↦
          rw (other, if◌then◌else◌)
            (Counts-weaken (find_storage h db.storage) _ _ (ground arith) (c h))
    ])

references-after :
    (h id : Bytes) (t : List FileRow) → references h (remove_file id t) ≤ references h t
unfolding remove_file references
references-after h id [] = omega arith
references-after h id (g ∷ t) = ground (arith, references-after h id t)

references-remove_file :
    (h id : Bytes) (t : List FileRow) {f : FileRow}
    → find_file id t ≡ some f
    → references h (remove_file id t) + one f.storage_hash h ≤ references h t
unfolding find_file remove_file references
references-remove_file h id [] {f} e = ground arith
references-remove_file h id (g ∷ t) {f} e =
    ground (arith, references-remove_file h id t {f = f}, references-after h id t)

pub no_file-IsCovered :
    (id : Bytes) (db : Db) {f : FileRow}
    → find_file id db.files ≡ some f
    → IsCovered nothing db
    → IsCovered (one f.storage_hash) (record db { files = remove_file id db.files })
no_file-IsCovered id db {f} there c h =
    Counts-weaken (find_storage h db.storage) _ _
      (ground (arith, references-remove_file h id db.files {f = f} there)) (c h)

-- A row without a count has no file, so its removal takes none away.
pub no_content-IsCovered :
    (hash : Bytes) (db : Db)
    → references hash db.files ≡ 0
    → IsCovered nothing db
    → IsCovered nothing (record db { storage = remove_storage hash db.storage })
no_content-IsCovered hash db free c h = rw find_storage-remove (elim (Bool-cases (hash == h)) [
  | inl same ↦
      rw (same, if◌then◌else◌)
        (Counts-empty _
          (ground (arith, ap (λ (x : Bytes). references x db.files) ((==_iff hash h).0 same))))
  | inr other ↦ rw (other, if◌then◌else◌) (c h)
])

pub references-unspared :
    (hash : Bytes) (db : Db) (s : Storage)
    → IsCovered nothing db
    → find_storage hash db.storage ≡ some s
    → is_zero s.reference_count ≡ true
    → references hash db.files ≡ 0
unfolding Counts
references-unspared hash db s c there z = ground (arith, c hash)
