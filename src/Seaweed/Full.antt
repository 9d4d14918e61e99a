-- ===== src/Seaweed/Full.antt =====
-- pkg/storage/seaweedfs.go: the store that asks the master for a volume. The main program makes the
-- other one.
use pot_play_storage.Prelude.{
  ◌||◌, List, ◌∷◌, ◌++◌, length, Option, none, some, Bytes, codes, nat_eq, ltb, if◌then◌else◌,
}
use pot_play_storage.Prelude.Int.{ℤ}
use pot_play_storage.Strings.{trim_suffix}
use pot_play_storage.Errors.{wrapped, Error, Result, ok, err}
use pot_play_storage.Paths.{split, join_segments}
use pot_play_storage.Backend.{StorageBackend}
use pot_play_storage.Http.{Http, Response, get_method, no_body, exchange, is_stored}
use pot_play_storage.Seaweed.{
  with_scheme, filer_port, health_check, listing_answer, decode, status_error, get_at, delete_at,
}
use pot_play_storage.Seaweed.Simple.{upload_answer}
use pot_play_storage.Seaweed.Requests.{
  Assignment, read_assignment, checked, assign_request, volume_request, directory_request,
  mapping_request, but_last, metadata, accept_status, list_query, listed, unless_failed,
}

module _ (H : Http) where
  -- NewSeaweedFSStorage, which keeps the master's URL
  unfoldable pub new_seaweed_storage : Bytes → H.State → Result Bytes × H.State
  unfolding health_check with_scheme trim_suffix
  new_seaweed_storage url s =
      let master_url = trim_suffix (with_scheme url) (codes "/") in
      let (failed, s') = health_check H master_url s in
      elim failed [
        | some e ↦ (err (wrapped (codes "seaweedfs connection failed") e), s')
        | none ↦ (ok master_url, s')
      ]

  abbrev pub assigned : Result Response → Result Assignment
  assigned (err e) = err e
  assigned (ok r) =
      if nat_eq r.status 200
      then checked (decode H read_assignment r.body)
      else err (status_error (codes "assign request failed with status") r.status)

  -- assignFileID
  abbrev pub assign_file_id : Bytes → H.State → Result Assignment × H.State
  assign_file_id master_url s =
      let (answer, s') = exchange H (assign_request master_url) s in (assigned answer, s')

  abbrev pub create_directory : Bytes → Bytes → H.State → Option Error × H.State
  create_directory filer_url directory s =
      let (answer, s') = exchange H (directory_request filer_url directory) s in
      (
        accept_status (codes "failed to create directory: status")
            (λ n. is_stored n || nat_eq n 409) answer,
        s',
      )

  -- The directory of a path that has one.
  abbrev pub create_parent : Bytes → Bytes → H.State → Option Error × H.State
  create_parent filer_url path s =
      let directories = split path in
      if ltb 1 (length directories)
      then create_directory filer_url (join_segments (but_last directories)) s
      else (none, s)

  abbrev pub put_mapping : Bytes → Bytes → Bytes → H.State → Option Error × H.State
  put_mapping filer_url path file_id s =
      let (answer, s') =
        exchange H (mapping_request filer_url path (H.write_json (metadata file_id))) s in
      (accept_status (codes "failed to store file mapping: status") is_stored answer, s')

  -- storeFileMapping
  abbrev pub store_file_mapping : Bytes → Bytes → Bytes → H.State → Option Error × H.State
  store_file_mapping master_url path file_id s =
      let filer_url = filer_port master_url in
      let (failed, s') = create_parent filer_url path s in
      elim failed [ some e ↦ (some e, s') | none ↦ put_mapping filer_url path file_id s' ]

  abbrev pub put_volume : Bytes → Assignment → Bytes → Bytes → H.State → Result ℤ × H.State
  put_volume master_url a path content s =
      let (answer, s') = exchange H (volume_request a path content) s in
      elim (upload_answer content answer) [
        | err e ↦ (err e, s')
        | ok n ↦
            let (failed, s'') = store_file_mapping master_url path a.file_id s' in
            (unless_failed n failed, s'')
      ]

  -- Put
  abbrev pub put_at : Bytes → Bytes → Bytes → H.State → Result ℤ × H.State
  put_at master_url path content s =
      let (assignment, s') = assign_file_id master_url s in
      elim assignment [
        | err e ↦ (err (wrapped (codes "failed to assign file ID") e), s')
        | ok a ↦ put_volume master_url a path content s'
      ]

  -- List
  abbrev pub list_at : Bytes → Bytes → H.State → Result (List Bytes) × H.State
  list_at master_url prefix s =
      let (answer, s') =
        exchange H
          (record {
            method = get_method;
            url = filer_port master_url ++ (b'/' ∷ prefix ++ (b'?' ∷ list_query prefix));
            body = no_body;
          })
          s in
      (listed (listing_answer H answer), s')

  -- The methods Put, Get, Delete and List, for the URL of a master. The declared size is not used.
  abbrev pub seaweed_storage : Bytes → StorageBackend
  seaweed_storage master_url = record {
    State = H.State;
    put = λ path content size. put_at master_url path content;
    get = get_at H (filer_port master_url);
    delete = delete_at H (filer_port master_url);
    list = list_at master_url;
  }
