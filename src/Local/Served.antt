-- ===== src/Local/Served.antt =====
-- The service over the local store.
use pot_play_storage.Prelude.{ℕ, Bytes, List, Option, ◌≡◌}
use pot_play_storage.Environment.{Env, IsUp}
use pot_play_storage.Service.{World}
use pot_play_storage.Service.State.{IsConsistent, HasChecksums, content_of}
use pot_play_storage.Service.View.{HasNoCollision}
use pot_play_storage.Service.Issued.{HasNewIds, Issued}
use pot_play_storage.Service.Runs.{Runs}
use pot_play_storage.Service.History.{replay, run-content_of}
use pot_play_storage.Local.{Os, local_storage}
use pot_play_storage.Local.Inside.{HasDepth}
use pot_play_storage.Local.Store.{local_holds, local_laws}
use pot_play_storage.Local.FileSystem.{IsFileSystem}
use pot_play_storage.Local.Identifiers.{IsIdentifier, local_storage-HasNames}

-- With files kept in a local directory that is not the root, the content of each file after any
-- sequence of uploads, downloads, deletions and listings is what the uploads and deletions that
-- succeeded make of the contents at the start. Every statement is carried out, the file system is
-- one as the local store relies on it, identifiers have no slash and no dot and are not drawn twice,
-- checksums are not empty and have no collisions, and the start is consistent with its identifiers
-- drawn.
pub run-local_storage :
    (E : Env) (O : Os) (cwd : Bytes) (files : O.State → List Bytes → Option Bytes) (base : Bytes)
    (F : IsFileSystem O cwd files)
    → HasDepth cwd base
    → IsUp E
    → ((n : ℕ) → IsIdentifier (E.uuid n))
    → HasChecksums E
    → HasNewIds E
    → ((c : Bytes) → HasNoCollision E c)
    → (w v : World (local_storage O base)) (r : Runs E (local_storage O base) w v)
    → IsConsistent E (local_storage O base) (local_holds O cwd files base) w
    → Issued E (local_storage O base) w
    → (j : Bytes)
    → content_of E (local_storage O base) (local_holds O cwd files base) v j
      ≡ replay E
          (local_storage O base)
          (content_of E (local_storage O base) (local_holds O cwd files base) w)
          r
          j
run-local_storage E O cwd files base F deep up ids sums new alone w v r c drawn j =
    run-content_of E (local_storage O base) (local_holds O cwd files base) up
      (local_laws O cwd files base F) (local_storage-HasNames O cwd files base F deep E ids) sums
      new alone w v r c drawn j
