-- ===== src/Server/Learnt.antt =====
-- What a client learns from the answer to a request.
use pot_play_storage.Prelude.{◌≡◌, refl, Bytes, [], ◌∷◌, List, none, some, ◌==◌, if◌then◌else◌}
use pot_play_storage.Errors.{Result, ok}
use pot_play_storage.Environment.{Env}
use pot_play_storage.Backend.{StorageBackend}
use pot_play_storage.Service.{World}
use pot_play_storage.Service.History.{View, taken_away}
use pot_play_storage.Handler.{FormFile, Reply, created, no_content}
use pot_play_storage.Server.{
  Request, Answer, reply, Endpoint, upload, delete, Router, routes, handle, serve,
}

-- What a reply to an upload says: the file it names has the bytes of the form.
abbrev pub learnt_upload : Result FormFile → Reply → View → View
learnt_upload (ok f) (created file) m j = if file.id == j then some f.content else m j
learnt_upload _ _ m j = m j

module _ (E : Env) where
  -- What a reply to a deletion says: the file whose identifier the text spells is gone.
  abbrev pub learnt_delete : Bytes → Reply → View → View
  learnt_delete x no_content m = taken_away (E.read_uuid x) m
  learnt_delete x _ m = m

  -- What a client learns from the answer to a request. Other requests change nothing.
  abbrev pub learnt_at : Endpoint → Request → Answer → View → View
  learnt_at upload r (reply a) m = learnt_upload r.form a m
  learnt_at (delete x) r (reply a) m = learnt_delete x a m
  learnt_at _ r _ m = m

  module _ (G : Router) where
    unfoldable pub learnt : Request → Answer → View → View
    learnt r a m = elim (G routes r.verb r.path) [ none ↦ m | some e ↦ learnt_at e r a m ]

    unfoldable pub learnt_all : List Request → List Answer → View → View
    unfolding learnt
    learnt_all [] answers m = m
    learnt_all (r ∷ requests) [] m = m
    learnt_all (r ∷ requests) (a ∷ answers) m = learnt_all requests answers (learnt r a m)

    pub learnt_known :
        (r : Request) (e : Endpoint) → G routes r.verb r.path ≡ some e → learnt r ≡ learnt_at e r
    unfolding learnt
    learnt_known r e known = rw (known, learnt) refl

    pub serve_known :
        (S : StorageBackend) (r : Request) (e : Endpoint) (w : World S)
        → G routes r.verb r.path ≡ some e
        → serve E S G r w ≡ handle E S G e r w
    unfolding serve
    serve_known S r e w known = rw (known, serve) refl
