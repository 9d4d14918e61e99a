-- ===== src/Service/Held.antt =====
-- When the rows keep their contents.
use mathlib.Core.Path.{subst, subst₂}
use pot_play_storage.Prelude.{ℕ, ◌≡◌, ◌≢◌, sym, ◌∙◌, Bytes, List, Option, arith}
use pot_play_storage.Prelude.Int.{ℤ}
use pot_play_storage.Environment.{Env}
use pot_play_storage.Database.{FileRow, Db, replace_storage}
use pot_play_storage.Database.Counts.{IsCounted, IsFreePath, found_before}
use pot_play_storage.Backend.{StorageBackend}
use pot_play_storage.Service.{World}
use pot_play_storage.Service.State.{IsHeld, IsConsistent}

-- Every row keeps its content if the rows keep their paths and the store what is under them.
module _ (E : Env) (S : StorageBackend) (holds : S.State → Bytes → Option Bytes) where
  pub recounted-IsHeld :
      (hash : Bytes) (n : ℤ) (now : ℕ) (db : Db) (files : List FileRow) (blobs : S.State)
      → IsHeld E S holds db blobs
      → IsHeld E S holds
          (record { storage = replace_storage hash n now db.storage; files = files })
          blobs
  recounted-IsHeld hash n now db files blobs held h s e =
      let (old, was, same) = found_before hash h n now db.storage s e in
      let (content, there, sum, size, n, drawn) = held h old was in
      (content, ground arith, sum, ground arith, n, ground arith)

  -- A store that keeps all paths but a free one keeps every row's content.
  pub elsewhere-IsHeld :
      (path : Bytes) (db : Db) (blobs blobs' : S.State)
      → IsFreePath path db
      → ((q : Bytes) → path ≢ q → holds blobs' q ≡ holds blobs q)
      → IsHeld E S holds db blobs
      → IsHeld E S holds db blobs'
  elsewhere-IsHeld path db blobs blobs' free keep held h s e =
      let (content, there, sum, size, n, drawn) = held h s e in
      (content, keep s.storage_path (λ p. free h s e (sym p)) ∙ there, sum, size, n, drawn)

  -- A world is consistent if its tables and its store are those of a consistent one.
  pub IsConsistent-of :
      (w : World S) {db : Db} {blobs : S.State}
      → w.repo.db ≡ db
      → w.blobs ≡ blobs
      → IsCounted db
      → IsHeld E S holds db blobs
      → IsConsistent E S holds w
  IsConsistent-of w e b c held = record {
    tables = subst IsCounted (sym e) c;
    held = subst₂ (IsHeld E S holds) (sym e) (sym b) held;
  }
