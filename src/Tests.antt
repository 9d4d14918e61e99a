-- ===== src/Tests.antt =====
-- Small inputs: an environment in which everything works, a store in memory, and a first upload.
mod Uploads
mod Deletions
mod Downloads
mod Inputs
mod Handlers
mod Histories
mod Listings
mod Stores
mod Servers
use mathlib.Core.Path.{subst}
use pot_play_storage.Prelude.{
  ℕ, suc, ◌≡◌, ◌≢◌, refl, sym, ap, ◌∙◌, Bytes, codes, List, [], ◌∷◌, ◌++◌, Option, none, some, Bool,
  true, false, arith, Bytes-discrete, ◌==◌, ==_iff, if◌then◌else◌, All, nat_eq,
}
use pot_play_storage.Prelude.Int.{ℤ, pos}
use pot_play_storage.Strings
use pot_play_storage.Utf8.{CaseTables, decode, runes, runes_after, is_control, to_upper, to_lower}
use pot_play_storage.Model.{Storage, File, FileHeader}
use pot_play_storage.Errors.{Error, external, Result, ok, err}
use pot_play_storage.Environment.{Env, IsUp}
use pot_play_storage.Validator.{
  base_filename, validate_filename, validate_file_extension, validate_content_type,
  validate_file_size, validate_file, lower_ext, sanitize_filename, lookup_type,
}
use pot_play_storage.Database.{
  FileRow, Db, find_storage, find_file, references, insert_storage, insert_file, update_count,
  in_integer, replace_storage, remove_storage, delete_unreferenced, delete_file, remove_file,
}
use pot_play_storage.Database.Counts.{IsCounted}
use pot_play_storage.Repository.{
  get_storage_by_hash, create_storage, increment_storage_ref, decrement_storage_ref, delete_storage,
  create_file_reference, get_by_id, read_by_id, get_storage_hash_by_file_id, delete_by_id,
}
use pot_play_storage.Repository.Calls.{Repo, exec, query, cache_get, cache_set, cache_del}
use pot_play_storage.Repository.Rows.{join_by_id, joined}
use pot_play_storage.Backend.{StorageBackend}
use pot_play_storage.Backend.Memory
use pot_play_storage.Backend.Memory.{memory, memory-IsLawful, memory-IsName, memory-IsReadable}
use pot_play_storage.Service.{World, upload, download, delete, release, add_reference, add_content}
use pot_play_storage.Service.State.{HasNames, IsConsistent, HasFreshIds, HasChecksums, content_of}
use pot_play_storage.Service.Upload.{upload-IsConsistent}
use pot_play_storage.Service.Delete.{delete-IsConsistent}
use pot_play_storage.Service.View.{content_of-upload, HasNoCollision}

-- Letters outside ASCII have no other case here.
abbrev pub tables : CaseTables
tables = record { upper = λ r. r; lower = λ r. r }

-- A text that is not empty spells an identifier, a capital U in it the same one as a small u.
abbrev pub spelt : Bytes → Option Bytes
spelt [] = none
spelt (c ∷ s) = some ((if nat_eq c b'U' then b'u' else c) ∷ s)

-- Everything works. The checksum of a content is a byte and the content.
abbrev pub calm : Env
calm = record {
  db_fault = λ n. none;
  cache_fault = λ n. false;
  timestamp = λ n. n;
  now = λ n. n;
  uuid = λ n. b'u' ∷ n ∷ [];
  rows_cut = λ n. none;
  read_uuid = spelt;
  checksum = λ c. b'#' ∷ c;
  case_tables = tables;
}

pub calm-IsUp : IsUp calm
calm-IsUp n = refl

pub calm-HasChecksums : HasChecksums calm
calm-HasChecksums c e = ground arith

pub calm-HasNoCollision : (content : Bytes) → HasNoCollision calm content
calm-HasNoCollision content c e = ground arith

pub calm-HasNames : HasNames calm memory Memory.at memory-IsLawful
calm-HasNames n = memory-IsName (calm.uuid n)

abbrev pub empty_world : World memory
empty_world = record {
  repo = record {
    db = record { storage = []; files = [] };
    cache = [];
    statements = 0;
    cache_calls = 0;
  };
  blobs = [];
  uuids = 0;
  instants = 0;
}

abbrev pub header : FileHeader
header = record { name = codes "a.txt"; size = pos 2; content_type = codes "text/plain" }

pub accepted_header : validate_file tables (some header) ≡ none
unfolding validate_file validate_filename validate_file_extension validate_content_type
    validate_file_size lower_ext lookup_type base_filename to_upper to_lower is_control decode
    runes_after Strings.has_prefix Strings.has_suffix Strings.contains Strings.trim_suffix
    Strings.ext Bytes-discrete
accepted_header = refl

pub accepted_name : validate_filename tables (codes "a.txt") ≡ none
unfolding validate_filename base_filename to_upper is_control decode runes_after Strings.has_prefix
    Strings.contains Strings.trim_suffix Strings.ext Bytes-discrete
accepted_name = refl

abbrev pub hi : Bytes
hi = codes "hi"

pub empty_world-IsConsistent : IsConsistent calm memory Memory.at empty_world
unfolding find_storage references
empty_world-IsConsistent = record {
  tables = record {
    ids = tt;
    counted = λ h s e. absurd (ground arith);
    used = λ h s e. absurd (ground arith);
    owned = λ h e. refl;
    fits = λ h s e. absurd (ground arith);
    paths = λ h k s t e e' p. absurd (ground arith);
  };
  held = λ h s e. absurd (ground arith);
}

pub empty_world-HasFreshIds : HasFreshIds calm memory Memory.at empty_world
unfolding find_storage find_file
empty_world-HasFreshIds = record { path = λ h s e. absurd (ground arith); id = refl }

abbrev pub first_record : Storage
first_record = record {
  hash = codes "#hi";
  size = pos 2;
  content_type = codes "text/plain";
  storage_path = b'u' ∷ 0 ∷ [];
  reference_count = pos 1;
  created_at = 0;
  updated_at = 0;
}

abbrev pub first_file : File
first_file = record {
  id = b'u' ∷ 1 ∷ [];
  name = codes "a.txt";
  storage_hash = codes "#hi";
  created_at = 0;
  storage = some first_record;
  size = pos 2;
  content_type = codes "text/plain";
  storage_path = b'u' ∷ 0 ∷ [];
  checksum = codes "#hi";
}

abbrev pub stored_world : World memory
stored_world = record {
  repo = record {
    db = record {
      storage = first_record ∷ [];
      files =
          record {
            id = b'u' ∷ 1 ∷ [];
            name = codes "a.txt";
            storage_hash = codes "#hi";
            created_at = 0;
            size = none;
            content_type = none;
            storage_path = none;
            checksum = none;
          }
          ∷ [];
    };
    cache = [];
    statements = 3;
    cache_calls = 1;
  };
  blobs = (b'u' ∷ 0 ∷ [], hi) ∷ [];
  uuids = 2;
  instants = 1;
}

-- The first upload, all of its effects.
pub first_upload : upload calm memory hi header empty_world ≡ (ok first_file, stored_world)
unfolding upload accepted_header add_content create_storage create_file_reference
    get_storage_by_hash exec cache_del insert_storage insert_file find_storage find_file
    Memory.without
first_upload = refl

pub stored_world-IsConsistent : IsConsistent calm memory Memory.at stored_world
stored_world-IsConsistent =
    subst (IsConsistent calm memory Memory.at)
      (ap (λ (p : Result File × World memory). p.1) first_upload)
      (upload-IsConsistent calm memory Memory.at calm-IsUp memory-IsLawful calm-HasNames hi header
        empty_world empty_world-IsConsistent empty_world-HasFreshIds)
