-- ===== src/Tests/Servers.antt =====
-- The theorems on the server and on what it starts with, at small requests and settings.
use pot_play_storage.Prelude.{
  ◌≡◌, refl, Bytes, codes, List, [], ◌∷◌, ◌++◌, true, false, none, some, Bytes-discrete, drop,
}
use pot_play_storage.Prelude.Int.{pos}
use pot_play_storage.Strings
use pot_play_storage.Errors.{ok}
use pot_play_storage.Backend.Memory
use pot_play_storage.Backend.Memory.{memory, memory-IsLawful, Files}
use pot_play_storage.Service.State.{IsConsistent, content_of}
use pot_play_storage.Handler.{FormFile}
use pot_play_storage.Server.{post_verb, delete_verb, upload, delete, Router, Request, serve_all}
use pot_play_storage.Server.History.{serve_all-content_of}
use pot_play_storage.Server.Learnt.{learnt_all}
use pot_play_storage.Config.{Settings, text, int, made, Pgx, dsn, new_db_pool, new_redis}
use pot_play_storage.Config.Dsn.{authority, authority-dsn_slash}
use pot_play_storage.Local.{Os}
use pot_play_storage.Local.Disk.{Disk, disk}
use pot_play_storage.Http.{Http}
use pot_play_storage.Seaweed.Server.{server}
use pot_play_storage.Seaweed.Simple.{simple_storage, simple_urls, new_simple_storage}
use pot_play_storage.Startup.{Configuration, Server, serving, start}
use pot_play_storage.Startup.Chosen.{IsChosen, start-IsChosen}
use pot_play_storage.Tests.{
  calm-HasNames, calm, calm-IsUp, calm-HasChecksums, calm-HasNoCollision, hi, empty_world,
  empty_world-IsConsistent,
}
use pot_play_storage.Tests.Histories.{calm-HasNewIds, empty_world-Issued}

-- A router for the requests below.
abbrev router : Router
router rs post_verb path = some upload
router rs delete_verb path = some (delete (drop 14 path))
router rs _ path = none

abbrev form : FormFile
form = record {
  filename = codes "a.txt";
  size = pos 2;
  opened = none;
  detected = ok (codes "text/plain");
  rewound = none;
  content = hi;
}

-- An upload, and the deletion of its file by another spelling of its identifier.
abbrev requests : List Request
requests =
    record { verb = post_verb; path = codes "/api/v1/files"; form = ok form; taken = true }
    ∷ record {
      verb = delete_verb;
      path = codes "/api/v1/files/" ++ (b'U' ∷ 1 ∷ []);
      form = ok form;
      taken = true;
    }
    ∷ []

serve_all-content_of_example :
    IsConsistent calm memory Memory.at (serve_all calm memory router requests empty_world).1
    × ((j : Bytes)
        → content_of calm memory Memory.at (serve_all calm memory router requests empty_world).1 j
          ≡ learnt_all calm router requests
              (serve_all calm memory router requests empty_world).0
              (content_of calm memory Memory.at empty_world)
              j)
serve_all-content_of_example =
    serve_all-content_of calm memory Memory.at calm-IsUp memory-IsLawful calm-HasNames
      calm-HasChecksums calm-HasNewIds calm-HasNoCollision router requests empty_world
      empty_world-IsConsistent empty_world-Issued

authority-dsn_slash_example :
    authority (dsn (codes "u") (codes "p/q") (codes "h") (pos 5432) (codes "d") (codes "disable"))
    ≡ codes "u:p"
authority-dsn_slash_example =
    authority-dsn_slash (codes "u") (codes "p/q") (codes "h") (pos 5432) (codes "d")
      (codes "disable") (codes "p") (codes "q") (refl, tt) (refl, tt) refl

abbrev database : Settings
database =
    (codes "host", text (codes "h"))
    ∷ (codes "user", text (codes "u"))
    ∷ (codes "password", text (codes "p"))
    ∷ (codes "name", text (codes "d"))
    ∷ (codes "ssl_mode", text (codes "disable"))
    ∷ (codes "port", int (pos 5432))
    ∷ []

abbrev pgx : Pgx
pgx = record {
  PoolConfig = Bytes;
  Pool = Bytes;
  parse_config = λ url. ok url;
  limited = λ conns minutes c. c;
  connect = λ c. ok c;
}

abbrev configuration : Configuration
configuration = record {
  database = database;
  redis = (codes "host", text (codes "r")) ∷ [];
  storage_type = codes "seaweedfs";
  local_path = [];
  master_url = codes "m:9333";
  port = pos 8080;
}

abbrev os : Os
os = disk (codes "/")

abbrev http : Http
http = server (codes "http://m:9333")

-- The master answers its health check.
abbrev states : Disk × Files
states = ([], (codes "cluster/status", []) ∷ [])

abbrev running : Server pgx os http
running = record {
  pool = dsn (codes "u") (codes "p") (codes "h") (pos 5432) (codes "d") (codes "disable");
  cache = record { addr = codes "r:6379"; password = []; db = pos 0 };
  storage = simple_storage http (simple_urls (codes "m:9333"));
  addr = codes ":8080";
}

started : (start pgx os http false (λ file. ok configuration) states).0 ≡ serving running
unfolding start new_simple_storage Memory.at Bytes-discrete
started = refl

start-IsChosen_example :
    (c : Configuration) × (ok configuration ≡ ok c)
    × (new_db_pool pgx c.database ≡ made running.pool)
    × (new_redis c.redis ≡ some running.cache)
    × IsChosen pgx os http c states running.storage
start-IsChosen_example =
    start-IsChosen pgx os http false (λ file. ok configuration) states running started
