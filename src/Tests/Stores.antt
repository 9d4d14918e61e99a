-- ===== src/Tests/Stores.antt =====
-- The theorems on the local store and the SeaweedFS stores, at stores in memory.
use pot_play_storage.Prelude.{
  ℕ, zero, suc, ◌≡◌, refl, ap, sym, ◌≢◌, ◌↔◌, true, Bytes, codes, List, [], ◌∷◌, ◌++◌, Option, some,
  All, Bytes-discrete, arith,
}
use pot_play_storage.Prelude.Int.{pos}
use pot_play_storage.Strings
use pot_play_storage.Errors.{ok, err}
use pot_play_storage.Environment.{Env}
use pot_play_storage.Paths
use pot_play_storage.Paths.{is_rooted, place, steps}
use pot_play_storage.Backend.{StorageBackend, IsLawful}
use pot_play_storage.Backend.Memory
use pot_play_storage.Database.{find_file, find_storage, references}
use pot_play_storage.Service.{World, upload}
use pot_play_storage.Service.State.{IsConsistent, content_of}
use pot_play_storage.Service.Issued.{Issued, HasNewIds}
use pot_play_storage.Service.Runs.{Runs, stop, upload_next}
use pot_play_storage.Service.History.{replay}
use pot_play_storage.Local
use pot_play_storage.Seaweed
use pot_play_storage.Local.{Os, sanitize_path, is_system, clean_path, local_storage}
use pot_play_storage.Local.Inside.{HasDepth, Accepted, sanitize_path-Accepted}
use pot_play_storage.Local.Store.{is_name, local_holds, local_storage-IsLawful}
use pot_play_storage.Local.Confined.{IsOutside, local_storage-IsOutside}
use pot_play_storage.Local.Listing.{IsBelow, places, visited_places, files_of, list-places}
use pot_play_storage.Local.Identifiers.{IsIdentifier}
use pot_play_storage.Local.Served.{run-local_storage}
use pot_play_storage.Local.Disk.{Disk, disk, file_at, disk-IsFileSystem}
use pot_play_storage.Seaweed.{filer_port}
use pot_play_storage.Seaweed.Simple.{SimpleStorage, simple_storage}
use pot_play_storage.Seaweed.Filer.{simple_storage-IsLawful}
use pot_play_storage.Seaweed.Full.{seaweed_storage, assign_file_id}
use pot_play_storage.Seaweed.Requests.{metadata, Assignment}
use pot_play_storage.Seaweed.Mapping.{get-put_metadata}
use pot_play_storage.Seaweed.Server.{server, server-IsFiler, server-KeepsBodies, Every}
use pot_play_storage.Tests.{calm, calm-IsUp, calm-HasChecksums, calm-HasNoCollision, hi, header}

abbrev cwd : Bytes
cwd = codes "/srv"

abbrev base : Bytes
base = codes "files"

cwd-is_rooted : is_rooted cwd ≡ true
unfolding is_rooted
cwd-is_rooted = refl

base-place : place cwd base ≡ codes "files" ∷ codes "srv" ∷ []
unfolding is_rooted Paths.walk Paths.step Paths.split Bytes-discrete
base-place = refl

base-HasDepth : HasDepth cwd base
base-HasDepth e = ground (arith, base-place)

sanitize_path-Accepted_example :
    (sanitize_path base (ok cwd) (codes "/a/./b") ≡ ok (codes "a/b"))
    ↔ ((codes "a/b" ≡ clean_path (codes "/a/./b")) × Accepted cwd base (codes "a/b"))
sanitize_path-Accepted_example =
    sanitize_path-Accepted base cwd (codes "/a/./b") (codes "a/b") cwd-is_rooted

accepted : sanitize_path base (ok cwd) (codes "/a/./b") ≡ ok (codes "a/b")
unfolding sanitize_path Paths.clean Paths.abs Paths.join is_system Local.absolute Strings.contains
    Strings.has_prefix Strings.trim_prefix Bytes-discrete
accepted = refl

refused_up : sanitize_path base (ok cwd) (codes "../a") ≡ err (Local.traversal (codes "../a"))
unfolding sanitize_path Paths.clean Strings.contains Strings.has_prefix Strings.trim_prefix
    Bytes-discrete
refused_up = refl

abbrev one_file : Disk
one_file = (codes "a" ∷ codes "files" ∷ codes "srv" ∷ [], hi) ∷ []

abbrev store : StorageBackend
store = local_storage (disk cwd) base

local_storage-IsOutside_example :
    ((x : List Bytes)
      → IsOutside (place cwd base) x
      → (file_at (store.put (codes "../b") hi (pos 2) one_file).1 x ≡ file_at one_file x)
        × (file_at (store.delete (codes "../b") one_file).1 x ≡ file_at one_file x))
    × ((x : List Bytes) → file_at (store.get (codes "../b") one_file).1 x ≡ file_at one_file x)
    × ((read : Bytes)
        → (store.get (codes "../b") one_file).0 ≡ ok read
        → (below : List Bytes) × (file_at one_file (below ++ place cwd base) ≡ some read))
local_storage-IsOutside_example =
    local_storage-IsOutside (disk cwd) cwd file_at base (disk-IsFileSystem cwd cwd-is_rooted)
      (codes "../b") hi (pos 2) one_file

local_storage-IsLawful_example :
    (L : IsLawful store (local_holds (disk cwd) cwd file_at base)) × ((q : Bytes)
      → is_name (disk cwd) cwd file_at base q ≡ true
      → L.IsName q)
local_storage-IsLawful_example =
    local_storage-IsLawful (disk cwd) cwd file_at base (disk-IsFileSystem cwd cwd-is_rooted)

abbrev rooted_base : Bytes
rooted_base = codes "/srv/files"

abbrev rooted_store : StorageBackend
rooted_store = local_storage (disk cwd) rooted_base

one_file-IsBelow : All (IsBelow rooted_base) ((disk cwd).walk rooted_base one_file)
unfolding Paths.clean Paths.walk Paths.step Paths.split Paths.render Paths.join is_rooted
    Bytes-discrete
one_file-IsBelow = ((codes "a", refl, (refl, ((λ e. ground arith), tt))), tt)

one_name : (rooted_store.list [] one_file).0 ≡ ok (codes "a" ∷ [])
unfolding sanitize_path Paths.clean Paths.abs Paths.join Paths.rel is_system Local.absolute
    Strings.contains Strings.has_prefix Strings.trim_prefix Bytes-discrete
one_name = refl

list-places_example :
    (c : Bytes) × (sanitize_path rooted_base (ok cwd) [] ≡ ok c)
    × (places cwd rooted_base (codes "a" ∷ [])
        ≡ visited_places cwd rooted_base
            (files_of ((disk cwd).walk (Paths.join rooted_base c) one_file)))
list-places_example =
    list-places (disk cwd) cwd file_at rooted_base (disk-IsFileSystem cwd cwd-is_rooted) [] one_file
      (codes "a" ∷ []) (λ c down. one_file-IsBelow) one_name

-- Identifiers of letters: the n-th has n + 1.
abbrev us : ℕ → Bytes
us zero = []
us (suc n) = b'u' ∷ us n

abbrev lettered : Env
lettered = record calm { uuid = λ n. us (suc n) }

us-injective : (n m : ℕ) → us n ≡ us m → n ≡ m
us-injective zero zero e = refl
us-injective zero (suc m) e = absurd (ground arith)
us-injective (suc n) zero e = absurd (ground arith)
us-injective (suc n) (suc m) e = ap suc (us-injective n m (ground arith))

lettered-HasNewIds : HasNewIds lettered
lettered-HasNewIds n m e = ground (arith, us-injective (suc n) (suc m) e)

us-avoid : (b : ℕ) → b ≢ b'u' → (n : ℕ) → All (λ c. c ≢ b) (us n)
us-avoid b h zero = tt
us-avoid b h (suc n) = ((λ e. h (sym e)), us-avoid b h n)

lettered-IsIdentifier : (n : ℕ) → IsIdentifier (lettered.uuid n)
lettered-IsIdentifier n = (
  λ e. ground arith,
  us-avoid b'/' (λ e. ground arith) (suc n),
  us-avoid b'.' (λ e. ground arith) (suc n),
)

-- A world without files, over any store.
abbrev start : (S : StorageBackend) → S.State → World S
start S blobs = record {
  repo = record {
    db = record { storage = []; files = [] };
    cache = [];
    statements = 0;
    cache_calls = 0;
  };
  blobs = blobs;
  uuids = 0;
  instants = 0;
}

start-IsConsistent :
    (S : StorageBackend) (holds : S.State → Bytes → Option Bytes) (blobs : S.State)
    → IsConsistent lettered S holds (start S blobs)
unfolding find_storage references
start-IsConsistent S holds blobs = record {
  tables = record {
    ids = tt;
    counted = λ h s e. absurd (ground arith);
    used = λ h s e. absurd (ground arith);
    owned = λ h e. refl;
    fits = λ h s e. absurd (ground arith);
    paths = λ h k s t e e' p. absurd (ground arith);
  };
  held = λ h s e. absurd (ground arith);
}

start-Issued : (S : StorageBackend) (blobs : S.State) → Issued lettered S (start S blobs)
unfolding find_storage find_file
start-Issued S blobs = record {
  paths = λ h s e. absurd (ground arith);
  ids = λ j f e. absurd (ground arith);
}

-- The world after an upload.
abbrev uploaded_to : (S : StorageBackend) → S.State → World S
uploaded_to S blobs = (upload lettered S hi header (start S blobs)).1

one_upload :
    (S : StorageBackend) (blobs : S.State) → Runs lettered S (start S blobs) (uploaded_to S blobs)
one_upload S blobs = upload_next hi header (start S blobs) stop

run-local_storage_example :
    content_of lettered store
      (local_holds (disk cwd) cwd file_at base)
      (uploaded_to store [])
      (us 2)
    ≡ replay lettered store
        (content_of lettered store (local_holds (disk cwd) cwd file_at base) (start store []))
        (one_upload store [])
        (us 2)
run-local_storage_example =
    run-local_storage lettered (disk cwd) cwd file_at base (disk-IsFileSystem cwd cwd-is_rooted)
      base-HasDepth calm-IsUp lettered-IsIdentifier calm-HasChecksums lettered-HasNewIds
      calm-HasNoCollision (start store []) (uploaded_to store []) (one_upload store [])
      (start-IsConsistent store (local_holds (disk cwd) cwd file_at base) [])
      (start-Issued store []) (us 2)

abbrev urls : SimpleStorage
urls = record { master_url = codes "http://m:9333"; filer_url = codes "http://m:8888" }

abbrev filer : StorageBackend
filer = simple_storage (server urls.filer_url) urls

simple_storage-IsLawful_example :
    (L : IsLawful filer Memory.at) × ((q : Bytes) → Every q → L.IsName q)
simple_storage-IsLawful_example =
    simple_storage-IsLawful (server urls.filer_url) urls Every Memory.at
      (server-IsFiler urls.filer_url)

abbrev with_master : Memory.Files
with_master = (codes "dir/assign", codes "{}") ∷ []

abbrev mapping_store : StorageBackend
mapping_store = seaweed_storage (server (filer_port (codes "m:9333"))) (codes "m:9333")

put_mapped : (mapping_store.put (codes "a") hi (pos 2) with_master).0 ≡ ok (pos 2)
unfolding Seaweed.Simple.upload_answer filer_port Seaweed.Requests.read_assignment Memory.at
    Memory.without Strings.trim_suffix Paths.split Bytes-discrete
put_mapped = refl

-- {"fid":"1,2"}
abbrev mapping_text : Bytes
mapping_text = b'{' ∷ b'"' ∷ codes "fid" ++ (b'"' ∷ b':' ∷ b'"' ∷ codes "1,2" ++ (b'"' ∷ b'}' ∷ []))

got_metadata :
    (mapping_store.get (codes "a") (mapping_store.put (codes "a") hi (pos 2) with_master).1).0
    ≡ ok mapping_text
unfolding Seaweed.Simple.upload_answer Seaweed.read_answer filer_port
    Seaweed.Requests.read_assignment Memory.at Memory.without Strings.trim_suffix Paths.split
    Bytes-discrete
got_metadata = refl

get-put_metadata_example :
    (a : Assignment) × ((assign_file_id
        (server (filer_port (codes "m:9333")))
        (codes "m:9333")
        with_master).0
      ≡ ok a)
    × (mapping_text ≡ (server (filer_port (codes "m:9333"))).write_json (metadata a.file_id))
get-put_metadata_example =
    get-put_metadata (server (filer_port (codes "m:9333"))) (codes "m:9333") Memory.at
      (server-KeepsBodies (filer_port (codes "m:9333"))) (codes "a") hi (pos 2) (pos 2) with_master
      mapping_text put_mapped got_metadata
