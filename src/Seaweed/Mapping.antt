-- ===== src/Seaweed/Mapping.antt =====
-- What the store of pkg/storage/seaweedfs.go keeps at the filer.
use pot_play_storage.Prelude.{
  ℕ, ◌≡◌, refl, inl, inr, Bool, true, Option, none, some, Bytes, codes, arith, Bool-cases,
  Option-cases,
}
use pot_play_storage.Prelude.Int.{ℤ}
use pot_play_storage.Errors.{Error, Result, Result-cases, ok, err}
use pot_play_storage.Http.{Http, Response, exchange, is_stored}
use pot_play_storage.Seaweed.{get_request, read_answer, filer_port}
use pot_play_storage.Seaweed.Simple.{upload_answer}
use pot_play_storage.Seaweed.Filer.{read_answer-ok, after_exchange}
use pot_play_storage.Seaweed.Full.{
  create_parent, put_mapping, store_file_mapping, put_volume, assign_file_id, put_at,
  seaweed_storage,
}
use pot_play_storage.Seaweed.Requests.{
  Assignment, mapping_request, volume_request, metadata, accept_status, unless_failed,
}

-- A filer that keeps under a path the body of the request that put it there.
pub record KeepsBodies (H : Http) (url : Bytes) (files : H.State → Bytes → Option Bytes)
    : Type 0 where
  pub put_kept :
      (p text : Bytes) (s : H.State) (r : Response)
      → (H.send (mapping_request url p text) s).0 ≡ ok r
      → is_stored r.status ≡ true
      → files (H.send (mapping_request url p text) s).1 p ≡ some text
  pub found :
      (p : Bytes) (s : H.State) (r : Response)
      → (H.send (get_request url p) s).0 ≡ ok r
      → r.status ≡ 200
      → files s p ≡ some r.body

accept_status-none :
    (text : Bytes) (accepted : ℕ → Bool) (a : Result Response)
    → accept_status text accepted a ≡ none
    → (r : Response) × (a ≡ ok r) × (accepted r.status ≡ true)
accept_status-none text accepted (err e) h = absurd (ground arith)
accept_status-none text accepted (ok r) h = elim (Bool-cases (accepted r.status)) [
  | inl good ↦ (r, refl, good)
  | inr bad ↦ absurd (ground arith)
]

abbrev mapping_failed : Bytes
mapping_failed = codes "failed to store file mapping: status"

unless_failed-none : (m : ℤ) (o : Option Error) (n : ℤ) → unless_failed m o ≡ ok n → o ≡ none
unless_failed-none m none n h = refl
unless_failed-none m (some e) n h = absurd (ground arith)

module _ (H : Http) (master_url : Bytes) (files : H.State → Bytes → Option Bytes)
    (F : KeepsBodies H (filer_port master_url) files) where
  abbrev url : Bytes
  url = filer_port master_url

  -- What lies at a path is the text that maps it to a file's identifier.
  abbrev IsMapped : Bytes → Bytes → H.State → Type 0
  IsMapped file_id p s = files s p ≡ some (H.write_json (metadata file_id))

  put_mapping-IsMapped :
      (p file_id : Bytes) (s : H.State)
      → (put_mapping H url p file_id s).0 ≡ none
      → IsMapped file_id p (put_mapping H url p file_id s).1
  put_mapping-IsMapped p file_id s h =
      let text = H.write_json (metadata file_id) in
      after_exchange H (mapping_request url p text) s
        (λ out. accept_status mapping_failed is_stored out.0 ≡ none → IsMapped file_id p out.1)
        (λ e failed. absurd (ground arith))
        (λ good.
          let (r, sent, stored) = accept_status-none mapping_failed is_stored _ good in
          F.put_kept p text s r sent stored)
        h

  store_file_mapping-IsMapped :
      (p file_id : Bytes) (s : H.State)
      → (store_file_mapping H master_url p file_id s).0 ≡ none
      → IsMapped file_id p (store_file_mapping H master_url p file_id s).1
  store_file_mapping-IsMapped p file_id s h = elim (Option-cases (create_parent H url p s).0) [
    | inl made ↦
        rw (made, store_file_mapping)
          (put_mapping-IsMapped p file_id (create_parent H url p s).1
            (rw (made, store_file_mapping) at h))
    | inr (e, failed) ↦ absurd (ground arith)
  ]

  put_volume-IsMapped :
      (a : Assignment) (p content : Bytes) (n : ℤ) (s : H.State)
      → (put_volume H master_url a p content s).0 ≡ ok n
      → IsMapped a.file_id p (put_volume H master_url a p content s).1
  put_volume-IsMapped a p content n s h =
      let sent = exchange H (volume_request a p content) s in
      elim (Result-cases (upload_answer content sent.0)) [
        | inl (m, stored) ↦
            rw (stored, put_volume)
              (store_file_mapping-IsMapped p a.file_id sent.1 (
                unless_failed-none m (store_file_mapping H master_url p a.file_id sent.1).0 n
                  (rw (stored, put_volume) at h)))
        | inr (e, refused) ↦ absurd (ground arith)
      ]

  put_at-IsMapped :
      (p content : Bytes) (n : ℤ) (s : H.State)
      → (put_at H master_url p content s).0 ≡ ok n
      → (a : Assignment) × ((assign_file_id H master_url s).0 ≡ ok a)
        × IsMapped a.file_id p (put_at H master_url p content s).1
  put_at-IsMapped p content n s h = elim (Result-cases (assign_file_id H master_url s).0) [
    | inl (a, assigned) ↦ (
      a,
      assigned,
      rw (assigned, put_at)
          (put_volume-IsMapped a p content n (assign_file_id H master_url s).1
            (rw (assigned, put_at) at h)),
    )
    | inr (e, failed) ↦ absurd (ground arith)
  ]

  -- What Get gives after a Put that succeeded is the text {"fid": ...} with the identifier that the
  -- master assigned in that Put, whatever the content, if the filer keeps under a path the body of
  -- the request that put it there.
  pub get-put_metadata :
      (p content : Bytes) (size n : ℤ) (s : H.State) (read : Bytes)
      → ((seaweed_storage H master_url).put p content size s).0 ≡ ok n
      → ((seaweed_storage H master_url).get p
          ((seaweed_storage H master_url).put p content size s).1).0
        ≡ ok read
      → (a : Assignment) × ((assign_file_id H master_url s).0 ≡ ok a)
        × (read ≡ H.write_json (metadata a.file_id))
  get-put_metadata p content size n s read stored got =
      let after = (put_at H master_url p content s).1 in
      let (a, assigned, mapped) = put_at-IsMapped p content n s stored in
      (
        a,
        assigned,
        after_exchange H (get_request url p) after
            (λ out. read_answer p out.0 ≡ ok read → read ≡ H.write_json (metadata a.file_id))
            (λ e failed.
              absurd
                (let (r, sent, good, body) = read_answer-ok p read (err e) failed in ground arith))
            (λ given.
              let (r, sent, good, body) = read_answer-ok p read _ given in
              let there = F.found p after r sent good in cc)
            got,
      )
