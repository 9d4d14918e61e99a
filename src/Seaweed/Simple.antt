-- ===== src/Seaweed/Simple.antt =====
-- pkg/storage/seaweedfs_simple.go: the store that the main program makes for "seaweedfs".
use pot_play_storage.Prelude.{
  ◌||◌, List, [], ◌∷◌, ◌++◌, length, none, some, Bytes, codes, ◌==◌, if◌then◌else◌,
}
use pot_play_storage.Prelude.Int.{ℤ, pos}
use pot_play_storage.Strings.{has_prefix, contains, trim_prefix, trim_suffix}
use pot_play_storage.Strings.Decimal.{decimal}
use pot_play_storage.Errors.{external, wrapped, Result, ok, err}
use pot_play_storage.Backend.{StorageBackend}
use pot_play_storage.Http.{
  Request, Http, Response, get_method, post_method, no_body, form_file, exchange, is_stored,
}
use pot_play_storage.Seaweed.{
  Entry, with_scheme, filer_port, replace_first, is_directory, health_check, listing_answer, get_at,
  delete_at,
}

-- SeaweedFSSimpleStorage
pub record SimpleStorage : Type 0 where
  pub master_url : Bytes
  pub filer_url : Bytes

-- The two URLs of a master's address.
unfoldable pub simple_urls : Bytes → SimpleStorage
unfolding trim_suffix replace_first with_scheme filer_port
simple_urls url =
    let master = with_scheme url in
    record {
      master_url = trim_suffix master (codes "/");
      filer_url =
          trim_suffix
            (replace_first (filer_port master) (codes "seaweedfs-master") (codes "seaweedfs-filer"))
            (codes "/");
    }

-- The path up to its last slash, without it; for a path that has one.
unfoldable pub before_last_slash : Bytes → Bytes
unfolding contains
before_last_slash [] = []
before_last_slash (c ∷ s) =
    let rest = before_last_slash s in if contains s (codes "/") then c ∷ rest else []

abbrev pub list_url : Bytes → Bytes → Bytes
list_url filer_url prefix =
    if contains prefix (codes "/")
    then filer_url ++ (codes "/" ++ (before_last_slash prefix ++ codes "/?pretty=y"))
    else filer_url ++ codes "/?pretty=y"

-- The paths of the entries that are files and begin with the prefix.
unfoldable pub matching : Bytes → List Entry → List Bytes
unfolding has_prefix trim_prefix
matching prefix [] = []
matching prefix (e ∷ entries) =
    let rest = matching prefix entries in
    let path = trim_prefix e.full_path (codes "/") in
    if is_directory e.mode
    then rest
    else if prefix == [] || has_prefix path prefix
    then path ∷ rest
    else rest

abbrev listed : Bytes → Result (List Entry) → Result (List Bytes)
listed prefix (err e) = err e
listed prefix (ok entries) = ok (matching prefix entries)

-- What Put makes of the filer's response.
unfoldable pub upload_answer : Bytes → Result Response → Result ℤ
unfolding decimal
upload_answer content (err e) = err e
upload_answer content (ok r) =
    if is_stored r.status
    then ok (pos (length content))
    else err (
        external
          (codes "upload failed with status " ++ (decimal r.status ++ (codes ": " ++ r.body))))

-- The request of Put: a form with the content as its file.
abbrev pub upload_request : Bytes → Bytes → Bytes → Request
upload_request filer_url path content = record {
  method = post_method;
  url = filer_url ++ (b'/' ∷ path);
  body = form_file (codes "file") path content;
}

module _ (H : Http) where
  -- NewSeaweedFSSimpleStorage
  unfoldable pub new_simple_storage : Bytes → H.State → Result SimpleStorage × H.State
  unfolding health_check simple_urls
  new_simple_storage url s =
      let urls = simple_urls url in
      let (failed, s') = health_check H urls.master_url s in
      elim failed [
        | some e ↦ (err (wrapped (codes "seaweedfs connection failed") e), s')
        | none ↦ (ok urls, s')
      ]

  abbrev pub put_at : Bytes → Bytes → Bytes → H.State → Result ℤ × H.State
  put_at filer_url path content s =
      let (answer, s') = exchange H (upload_request filer_url path content) s in
      (upload_answer content answer, s')

  abbrev pub list_at : Bytes → Bytes → H.State → Result (List Bytes) × H.State
  list_at filer_url prefix s =
      let (answer, s') =
        exchange H (record { method = get_method; url = list_url filer_url prefix; body = no_body })
          s in
      (listed prefix (listing_answer H answer), s')

  -- The methods Put, Get, Delete and List. The declared size is not used.
  abbrev pub simple_storage : SimpleStorage → StorageBackend
  simple_storage urls = record {
    State = H.State;
    put = λ path content size. put_at urls.filer_url path content;
    get = get_at H urls.filer_url;
    delete = delete_at H urls.filer_url;
    list = list_at urls.filer_url;
  }
