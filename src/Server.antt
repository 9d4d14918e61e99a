-- ===== src/Server.antt =====
-- cmd/main.go: the routes, and what the server does with a request. The router is gin's, a parameter.
-- Requests come one at a time.
pub mod Learnt
pub mod History
use pot_play_storage.Prelude.{
  Bytes, codes, ◌==◌, List, [], ◌∷◌, ◌++◌, Option, none, some, Bool, true, false, if◌then◌else◌,
}
use pot_play_storage.Paths.{split}
use pot_play_storage.Errors.{Result}
use pot_play_storage.Environment.{Env}
use pot_play_storage.Backend.{StorageBackend}
use pot_play_storage.Service.{World}
use pot_play_storage.Handler
use pot_play_storage.Handler.{FormFile, Reply, created, no_content}

pub data Verb : Type 0 where
  get_verb : Verb
  post_verb : Verb
  delete_verb : Verb
  other_verb : Verb

-- What a route leads to, with the parameter "id".
pub data Endpoint : Type 0 where
  health : Endpoint
  upload : Endpoint
  view : Bytes → Endpoint
  download : Bytes → Endpoint
  delete : Bytes → Endpoint
  list : Endpoint

-- A segment of a pattern: a text, or ":id".
pub data Segment : Type 0 where
  literal : Bytes → Segment
  id : Segment

pub record Route : Type 0 where
  pub verb : Verb
  pub pattern : List Segment
  pub endpoint : Bytes → Endpoint

-- "/api/v1/files" and what comes after it
abbrev pub api : List Segment → List Segment
api rest =
    literal [] ∷ literal (codes "api") ∷ literal (codes "v1") ∷ literal (codes "files") ∷ rest

abbrev pub routes : List Route
routes =
    record {
      verb = get_verb;
      pattern = literal [] ∷ literal (codes "health") ∷ [];
      endpoint = λ x. health;
    }
    ∷ record { verb = post_verb; pattern = api []; endpoint = λ x. upload }
    ∷ record { verb = get_verb; pattern = api (id ∷ []); endpoint = view }
    ∷ record {
      verb = get_verb;
      pattern = api (id ∷ literal (codes "download") ∷ []);
      endpoint = download;
    }
    ∷ record { verb = delete_verb; pattern = api (id ∷ []); endpoint = delete }
    ∷ record { verb = get_verb; pattern = api []; endpoint = λ x. list }
    ∷ []

-- The router of gin: the endpoint that the routes give for the verb and the path of a request, if any.
abbrev pub Router : Type 0
Router = List Route → Verb → Bytes → Option Endpoint

-- A request, with the form that an upload finds in it and whether the client takes all bytes of
-- what it is sent.
pub record Request : Type 0 where
  pub verb : Verb
  pub path : Bytes
  pub form : Result FormFile
  pub taken : Bool

-- `unrouted` is the router's own answer to a request that no route takes.
pub data Answer : Type 0 where
  healthy : Answer
  reply : Reply → Answer
  unrouted : Answer

module _ (E : Env) (S : StorageBackend) (G : Router) where
  abbrev pub replied : Reply × World S → Answer × World S
  replied (r, w) = (reply r, w)

  -- The handler of an endpoint.
  abbrev pub handle : Endpoint → Request → World S → Answer × World S
  handle health r w = (healthy, w)
  handle upload r w = replied (Handler.upload E S r.form w)
  handle (view x) r w = replied (Handler.view E S x r.taken w)
  handle (download x) r w = replied (Handler.download E S x r.taken w)
  handle (delete x) r w = replied (Handler.delete E S x w)
  handle list r w = replied (Handler.list E S w)

  unfoldable pub serve : Request → World S → Answer × World S
  unfolding Handler.upload Handler.view Handler.download Handler.delete Handler.list
  serve r w = elim (G routes r.verb r.path) [ none ↦ (unrouted, w) | some e ↦ handle e r w ]

  -- The answers to a sequence of requests, and the world after them.
  unfoldable pub serve_all : List Request → World S → List Answer × World S
  unfolding serve
  serve_all [] w = ([], w)
  serve_all (r ∷ requests) w =
      let (answer, w') = serve r w in
      let (answers, w'') = serve_all requests w' in (answer ∷ answers, w'')
