-- ===== src/Seaweed.antt =====
-- What pkg/storage/seaweedfs.go and seaweedfs_simple.go share: the URLs, the health check, the
-- requests of Get and Delete, and the listings of the filer.
pub mod Simple
pub mod Requests
pub mod Full
pub mod Mapping
pub mod Server
pub mod Filer
pub mod Served
use pot_play_storage.Prelude.{
  ℕ, ◌/◌, ◌%◌, ◌-◌, zero, suc, Bool, true, false, not, ◌||◌, List, [], ◌∷◌, ◌++◌, length, take,
  drop, Option, none, some, Bytes, codes, ◌==◌, nat_eq, if◌then◌else◌,
}
use pot_play_storage.Prelude.Int.{ℤ, pos, negsuc}
use pot_play_storage.Strings.{has_prefix, contains, trim_suffix}
use pot_play_storage.Strings.Decimal.{decimal}
use pot_play_storage.Errors.{Error, external, wrapped, Result, ok, err}
use pot_play_storage.Model.Encoding.{◌>>=◌}
use pot_play_storage.Model.Encoding.{
  Json, null, obj, arr, Fields, end, Items, nil, item, get_key, read_str, read_num, read_time,
  read_bool,
}
use pot_play_storage.Http.{Http, Request, Response, get_method, delete_method, no_body, exchange}

-- strings.Replace(s, old, new, 1), for an `old` that is not empty
unfoldable pub replace_first : Bytes → Bytes → Bytes → Bytes
unfolding has_prefix
replace_first [] old new = []
replace_first (c ∷ s) old new =
    let rest = replace_first s old new in
    if has_prefix (c ∷ s) old then new ++ drop (length old) (c ∷ s) else c ∷ rest

-- The master's URL with a scheme.
unfoldable pub with_scheme : Bytes → Bytes
unfolding has_prefix
with_scheme url =
    if has_prefix url (codes "http://") || has_prefix url (codes "https://")
    then url
    else codes "http://" ++ url

-- The filer's default port in place of the master's.
unfoldable pub filer_port : Bytes → Bytes
unfolding replace_first
filer_port url = replace_first url (codes ":9333") (codes ":8888")

-- fmt.Errorf("<text> %d", status)
abbrev pub status_error : Bytes → ℕ → Error
status_error text status = external (text ++ (b' ' ∷ decimal status))

abbrev pub not_found : Bytes → Error
not_found path = external (codes "file not found: " ++ path)

-- A file of a listing, as DirectoryEntry.
pub record Entry : Type 0 where
  pub full_path : Bytes
  pub mtime : ℕ
  pub crtime : ℕ
  pub mode : ℤ
  pub uid : ℤ
  pub gid : ℤ
  pub mime : Bytes
  pub size : ℤ
  pub name : Bytes

-- mode & 0x4000 != 0, on an int in two's complement
abbrev pub is_directory : ℤ → Bool
is_directory (pos n) = nat_eq (n / 16384 % 2) 1
is_directory (negsuc n) = nat_eq (n / 16384 % 2) 0

-- Decoding an object that has each key once, spelt as the struct's tag.
unfoldable pub read_entry : Fields → Option Entry
read_entry fs = do
  full_path ← read_str (get_key (codes "FullPath") fs)
  mtime ← read_time (get_key (codes "Mtime") fs)
  crtime ← read_time (get_key (codes "Crtime") fs)
  mode ← read_num (get_key (codes "Mode") fs)
  uid ← read_num (get_key (codes "Uid") fs)
  gid ← read_num (get_key (codes "Gid") fs)
  mime ← read_str (get_key (codes "Mime") fs)
  size ← read_num (get_key (codes "Size") fs)
  name ← read_str (get_key (codes "name") fs)
  some (record {
    full_path = full_path;
    mtime = mtime;
    crtime = crtime;
    mode = mode;
    uid = uid;
    gid = gid;
    mime = mime;
    size = size;
    name = name;
  })

unfoldable pub read_entries : Items → Option (List Entry)
unfolding read_entry
read_entries nil = some []
read_entries (item (obj fs) rest) = do e ← read_entry fs; es ← read_entries rest; some (e ∷ es)
read_entries (item null rest) = do e ← read_entry end; es ← read_entries rest; some (e ∷ es)
read_entries (item _ rest) = none

read_array : Json → Option (List Entry)
unfolding read_entries
read_array null = some []
read_array (arr items) = read_entries items
read_array _ = none

read_listing_fields : Fields → Option (List Entry)
unfolding read_array get_key
read_listing_fields fs = do
  path ← read_str (get_key (codes "Path") fs)
  entries ← read_array (get_key (codes "Entries") fs)
  limit ← read_num (get_key (codes "Limit") fs)
  last ← read_str (get_key (codes "LastFileName") fs)
  more ← read_bool (get_key (codes "ShouldDisplayLoadMore") fs)
  some entries

-- The entries of a DirectoryListResponse.
unfoldable pub read_listing : Json → Option (List Entry)
unfolding read_listing_fields
read_listing null = read_listing_fields end
read_listing (obj fs) = read_listing_fields fs
read_listing _ = none

-- A value decoded from a tree.
abbrev pub decoded {ℓ} : {A : Type ℓ} → Error → Option A → Result A
decoded mismatch none = err mismatch
decoded mismatch (some a) = ok a

-- json.NewDecoder(body).Decode(&value)
abbrev pub decode {ℓ} : {A : Type ℓ} → (H : Http) → (Json → Option A) → Bytes → Result A
decode H read body = elim (H.read_json body) [ err e ↦ err e | ok j ↦ decoded H.mismatch (read j) ]

-- What Get makes of the filer's response.
unfoldable pub read_answer : Bytes → Result Response → Result Bytes
unfolding decimal
read_answer path (err e) = err e
read_answer path (ok r) =
    if nat_eq r.status 404
    then err (not_found path)
    else if nat_eq r.status 200
    then ok r.body
    else err (status_error (codes "failed to get file: status") r.status)

-- What Delete makes of the filer's response: a file that is not there counts as deleted.
unfoldable pub removal_answer : Result Response → Result (Unit {0})
unfolding decimal
removal_answer (err e) = err e
removal_answer (ok r) =
    if nat_eq r.status 404
    then ok tt
    else if nat_eq r.status 204 || nat_eq r.status 200
    then ok tt
    else err (status_error (codes "failed to delete file: status") r.status)

-- The requests of Get and Delete for a path at the filer.
abbrev pub get_request : Bytes → Bytes → Request
get_request filer_url path = record {
  method = get_method;
  url = filer_url ++ (b'/' ∷ path);
  body = no_body;
}

abbrev pub delete_request : Bytes → Bytes → Request
delete_request filer_url path = record {
  method = delete_method;
  url = filer_url ++ (b'/' ∷ path);
  body = no_body;
}

abbrev pub health_request : Bytes → Request
health_request master_url = record {
  method = get_method;
  url = master_url ++ codes "/cluster/status";
  body = no_body;
}

module _ (H : Http) where
  -- healthCheck
  unfoldable pub health_check : Bytes → H.State → Option Error × H.State
  unfolding decimal
  health_check master_url s =
      let (answer, s') = exchange H (health_request master_url) s in
      elim answer [
        | err e ↦ (some e, s')
        | ok r ↦ (
          if nat_eq r.status 200
              then none
              else some (status_error (codes "master server returned status") r.status),
          s',
        )
      ]

  -- The entries of List's response; there are none if there is no directory.
  unfoldable pub listing_answer : Result Response → Result (List Entry)
  unfolding decimal read_listing
  listing_answer (err e) = err e
  listing_answer (ok r) =
      if nat_eq r.status 404
      then ok []
      else if nat_eq r.status 200
      then decode H read_listing r.body
      else err (status_error (codes "failed to list files: status") r.status)

  -- Get
  abbrev pub get_at : Bytes → Bytes → H.State → Result Bytes × H.State
  get_at filer_url path s =
      let (answer, s') = exchange H (get_request filer_url path) s in (read_answer path answer, s')

  -- Delete
  abbrev pub delete_at : Bytes → Bytes → H.State → Result (Unit {0}) × H.State
  delete_at filer_url path s =
      let (answer, s') = exchange H (delete_request filer_url path) s in (removal_answer answer, s')
