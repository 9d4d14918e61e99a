-- ===== src/Handler/Lengths.antt =====
-- The answer to a download or a view of a file that has a content.
use pot_play_storage.Prelude.{
  ◌≡◌, ◌≢◌, refl, ap, ◌∙◌, inl, inr, Bytes, [], Option, none, some, true, Bool-cases, ◌==◌, ==_iff,
  length, arith,
}
use pot_play_storage.Prelude.Int.{pos}
use pot_play_storage.Model.{Storage, File, get_size}
use pot_play_storage.Errors.{ok}
use pot_play_storage.Environment.{Env, IsUp}
use pot_play_storage.Backend.{StorageBackend, IsReadable}
use pot_play_storage.Repository.Calls.{cached, file_key}
use pot_play_storage.Repository.Rows.{joined}
use pot_play_storage.Database.{FileRow}
use pot_play_storage.Service
use pot_play_storage.Service.{World}
use pot_play_storage.Service.State.{IsConsistent, content_of}
use pot_play_storage.Service.Download.{download-Joined}
use pot_play_storage.Handler.{
  Headers, streamed, send, download, view, download_headers, view_headers,
}

module _ (E : Env) (S : StorageBackend) (holds : S.State → Bytes → Option Bytes) where
  send_sent :
      (headers : Bytes → File → Headers) (id content : Bytes) (w : World S) (file : File)
      → id ≢ []
      → (Service.download E S id w).0 ≡ ok (content, file)
      → (send E S headers id true w).0 ≡ streamed (headers id file) content
  unfolding send
  send_sent headers id content w file named read = elim (Bool-cases (id == [])) [
    | inl empty ↦ absurd (named ((==_iff id []).0 empty))
    | inr other ↦ rw (other, read, send) refl
  ]

  get_size-joined : (f : FileRow) (s : Storage) → get_size (joined f s) ≡ s.size
  unfolding get_size joined
  get_size-joined f s = refl

  -- A file that has a content is sent to a client that takes all bytes and asks for it by a text that
  -- spells its identifier and under which the cache has no entry:
  -- Download and View answer 200 with the content, and the header Content-Length is its length. The
  -- text is not empty, the world is consistent, every statement is carried out and the store
  -- finds what it holds.
  pub download-content_length :
      IsUp E
      → IsReadable S holds
      → (id u : Bytes) (w : World S) (content : Bytes) → id ≢ []
      → IsConsistent E S holds w
      → cached (file_key id) w.repo.cache ≡ none
      → E.read_uuid id ≡ some u
      → content_of E S holds w u ≡ some content
      → (h : Headers) × (g : Headers) × ((download E S id true w).0 ≡ streamed h content)
        × ((view E S id true w).0 ≡ streamed g content)
        × (h.content_length ≡ pos (length content))
        × (g.content_length ≡ pos (length content))
  unfolding download view
  download-content_length up R id u w content named c miss reads shown =
      let (f, s, there, stored, lies, read) =
        download-Joined E S holds up R id u w content miss reads shown in
      let (kept, same, sum, size, n, drawn) = c.held f.storage_hash s stored in
      let equal : kept ≡ content = ground arith in
      let whole : s.size ≡ pos (length content) = size ∙ ap (λ (x : Bytes). pos (length x)) equal in
      (
        download_headers E S id (joined f s),
        view_headers E S id (joined f s),
        send_sent (download_headers E S) id content w (joined f s) named read,
        send_sent (view_headers E S) id content w (joined f s) named read,
        get_size-joined f s ∙ whole,
        get_size-joined f s ∙ whole,
      )
