-- ===== src/Server/History.antt =====
-- What clients know of the files from their requests and the answers alone.
use mathlib.Core.Path.{subst}
use pot_play_storage.Prelude.{
  ℕ, ◌≡◌, refl, sym, ap, ◌∙◌, inl, inr, Bytes, [], ◌∷◌, List, Option, Option-cases, some, Bool,
  Bool-cases, ◌==◌,
}
use pot_play_storage.Model.{File, FileHeader}
use pot_play_storage.Errors.{Result, Result-cases, ok, err}
use pot_play_storage.Environment.{Env, IsUp}
use pot_play_storage.Validator.{validate_file}
use pot_play_storage.Backend.{StorageBackend, IsLawful}
use pot_play_storage.Service
use pot_play_storage.Service.{World, list_files}
use pot_play_storage.Service.State.{IsConsistent, HasChecksums, HasNames, content_of}
use pot_play_storage.Service.View.{HasNoCollision}
use pot_play_storage.Service.Issued.{Issued, HasNewIds}
use pot_play_storage.Service.Runs.{Runs, stop, upload_next, download_next, delete_next, list_next}
use pot_play_storage.Service.History.{
  View, IsWell, uploaded, deleted, upload_shows, delete_shows, run-IsWell, download_shows,
  list_shows,
}
use pot_play_storage.Handler
use pot_play_storage.Handler.{FormFile, Headers, Reply, created, no_content, error_reply}
use pot_play_storage.Handler.Replies.{form_header, upload_cases}
use pot_play_storage.Server.{
  replied, Request, Answer, Endpoint, health, upload, view, download, delete, list, Router, routes,
  handle, serve, serve_all,
}
use pot_play_storage.Server.Learnt.{
  learnt_upload, learnt_at, learnt, learnt_all, learnt_known, serve_known,
}

module _ (E : Env) (S : StorageBackend) (holds : S.State → Bytes → Option Bytes) (up : IsUp E)
    (L : IsLawful S holds) (names : HasNames E S holds L) (sums : HasChecksums E)
    (new : HasNewIds E) (alone : (c : Bytes) → HasNoCollision E c) (G : Router) where
  abbrev Well : World S → Type 0
  Well = IsWell E S holds up L names sums new alone

  abbrev contents : World S → View
  contents = content_of E S holds

  -- The contents after a request are those that its answer tells.
  abbrev Told : (Answer → View → View) → World S → Answer × World S → Type 0
  Told learns w out = Well out.1 × ((j : Bytes) → contents out.1 j ≡ learns out.0 (contents w) j)

  abbrev well_after : (w v : World S) → Runs E S w v → Well w → Well v
  well_after = run-IsWell E S holds up L names sums new alone

  -- An error tells nothing.
  error_learns :
      (form : Result FormFile) (n : ℕ) (m : Bytes) (k : View) (j : Bytes)
      → k j ≡ learnt_upload form (error_reply n m) k j
  error_learns (ok f) n m k j = refl
  error_learns (err e) n m k j = refl

  store-Told :
      (header : FileHeader) (f : FormFile) (r : Request) (w : World S)
      → r.form ≡ ok f
      → Well w
      → Told (learnt_at E upload r) w (replied E S G (Handler.store E S header f.content w))
  unfolding Handler.store
  store-Told header f r w sent c = elim (Option-cases (validate_file E.case_tables (some header))) [
    | inr (e, refused) ↦ rw (sent, refused, Handler.store) (c, λ j. refl)
    | inl accepted ↦
        let after = well_after w _ (upload_next f.content header w stop) c in
        let shows =
          λ (j : Bytes). upload_shows E S holds up L names sums new alone f.content header w j c in
        elim (Result-cases (Service.upload E S f.content header w).0) [
          | inl (file, done) ↦
              rw (sent, accepted, done, Handler.store)
                (
                  after,
                  λ j. shows j ∙ ap (λ (x : Result File). uploaded f.content x (contents w) j) done,
                )
          | inr (e, failed) ↦
              rw (sent, accepted, failed, Handler.store)
                (
                  after,
                  λ j.
                      shows j
                      ∙ ap (λ (x : Result File). uploaded f.content x (contents w) j) failed,
                )
        ]
  ]

  upload-Told :
      (form : Result FormFile) (r : Request) (w : World S)
      → r.form ≡ form
      → Well w
      → Told (learnt_at E upload r) w (replied E S G (Handler.upload E S form w))
  unfolding Handler.upload
  upload-Told (err e) r w sent c = (c, λ j. error_learns r.form 400 _ (contents w) j)
  upload-Told (ok f) r w sent c = elim (upload_cases E S f w) [
    | inl (m, out) ↦
        subst (λ (o : Reply × World S). Told (learnt_at E upload r) w (replied E S G o)) (sym out)
          (c, λ j. error_learns r.form 400 m (contents w) j)
    | inr (inl out) ↦
        subst (λ (o : Reply × World S). Told (learnt_at E upload r) w (replied E S G o)) (sym out)
          (c, λ j. error_learns r.form 500 _ (contents w) j)
    | inr (inr (mime, detected, out)) ↦
        subst (λ (o : Reply × World S). Told (learnt_at E upload r) w (replied E S G o)) (sym out)
          (store-Told (form_header f mime) f r w sent c)
  ]

  delete-Told :
      (x : Bytes) (r : Request) (w : World S)
      → Well w
      → Told (learnt_at E (delete x) r) w (replied E S G (Handler.delete E S x w))
  unfolding Handler.delete
  delete-Told x r w c = elim (Bool-cases (x == [])) [
    | inl empty ↦ rw (empty, Handler.delete) (c, λ j. refl)
    | inr named ↦
        let after = well_after w _ (delete_next x w stop) c in
        let shows = λ (j : Bytes). delete_shows E S holds up L names sums new alone x w j c in
        elim (Result-cases (Service.delete E S x w).0) [
          | inl (u, done) ↦
              rw (named, done, Handler.delete)
                (
                  after,
                  λ j.
                      shows j
                      ∙ ap (λ (y : Result (Unit {0})). deleted (E.read_uuid x) y (contents w) j)
                          done,
                )
          | inr (e, failed) ↦
              rw (named, failed, Handler.delete)
                (
                  after,
                  λ j.
                      shows j
                      ∙ ap (λ (y : Result (Unit {0})). deleted (E.read_uuid x) y (contents w) j)
                          failed,
                )
        ]
  ]

  -- Sending a file tells nothing new.
  send-Told :
      (headers : Bytes → File → Headers) (x : Bytes) (taken : Bool) (w : World S)
      → Well w
      → Told (λ a m. m) w (replied E S G (Handler.send E S headers x taken w))
  unfolding Handler.send
  send-Told headers x taken w c = elim (Bool-cases (x == [])) [
    | inl empty ↦ rw (empty, Handler.send) (c, λ j. refl)
    | inr named ↦
        let after = well_after w _ (download_next x w stop) c in
        let shows = download_shows E S holds up L names sums new alone x w in
        elim (Result-cases (Service.download E S x w).0) [
          | inl (u, done) ↦ rw (named, done, Handler.send) (after, shows)
          | inr (e, failed) ↦ rw (named, failed, Handler.send) (after, shows)
        ]
  ]

  list-Told : (w : World S) → Well w → Told (λ a m. m) w (replied E S G (Handler.list E S w))
  unfolding Handler.list
  list-Told w c =
      let after = well_after w _ (list_next w stop) c in
      let shows = list_shows E S holds up L names sums new alone w in
      elim (Result-cases (list_files E S w).0) [
        | inl (u, done) ↦ rw (done, Handler.list) (after, shows)
        | inr (e, failed) ↦ rw (failed, Handler.list) (after, shows)
      ]

  handle-Told :
      (e : Endpoint) (r : Request) (w : World S)
      → Well w
      → Told (learnt_at E e r) w (handle E S G e r w)
  unfolding Handler.view Handler.download
  handle-Told health r w c = (c, λ j. refl)
  handle-Told upload r w c = upload-Told r.form r w refl c
  handle-Told (view x) r w c = send-Told (Handler.view_headers E S) x r.taken w c
  handle-Told (download x) r w c = send-Told (Handler.download_headers E S) x r.taken w c
  handle-Told (delete x) r w c = delete-Told x r w c
  handle-Told list r w c = list-Told w c

  serve-Told : (r : Request) (w : World S) → Well w → Told (learnt E G r) w (serve E S G r w)
  unfolding serve learnt
  serve-Told r w c = elim (Option-cases (G routes r.verb r.path)) [
    | inl unknown ↦ rw (unknown, serve, learnt) (c, λ j. refl)
    | inr (e, known) ↦
        subst (λ (l : Answer → View → View). Told l w (serve E S G r w))
          (sym (learnt_known E G r e known))
          (subst (Told (learnt_at E e r) w) (sym (serve_known E G S r e w known))
            (handle-Told e r w c))
  ]

  serve_all-Told :
      (requests : List Request) (w : World S)
      → Well w
      → Well (serve_all E S G requests w).1
        × (contents (serve_all E S G requests w).1
            ≡ learnt_all E G requests (serve_all E S G requests w).0 (contents w))
  unfolding serve_all learnt_all
  serve_all-Told [] w c = (c, refl)
  serve_all-Told (r ∷ requests) w c =
      let (well, told) = serve-Told r w c in
      let (after, shown) = serve_all-Told requests (serve E S G r w).1 well in
      (
        after,
        shown
            ∙ ap (learnt_all E G requests (serve_all E S G requests (serve E S G r w).1).0)
                (λ i j. told j i),
      )

  -- After any sequence of requests, the content of each file is what the requests and their answers
  -- tell from the contents at the start: an answer 201 to an upload puts the bytes of the form under
  -- the identifier in it, an answer 204 to a deletion takes away the file whose identifier the
  -- text in the path spells, and no other answer changes anything, a refusal, a failure and a path without a
  -- route included, whatever the router makes of the paths. The world stays
  -- consistent. Every statement is carried out, the store is lawful and every identifier is a name
  -- of it, no identifier is drawn twice, checksums are not empty and have no collisions, and the
  -- start is consistent with its identifiers drawn.
  pub serve_all-content_of :
      (requests : List Request) (w : World S)
      → IsConsistent E S holds w
      → Issued E S w
      → IsConsistent E S holds (serve_all E S G requests w).1
        × ((j : Bytes)
            → content_of E S holds (serve_all E S G requests w).1 j
              ≡ learnt_all E G requests (serve_all E S G requests w).0 (content_of E S holds w) j)
  serve_all-content_of requests w c drawn =
      let (well, shown) = serve_all-Told requests w (record { consistent = c; issued = drawn }) in
      (well.consistent, λ j. ap (λ (m : View). m j) shown)
