-- ===== src/Startup.antt =====
-- cmd/main.go: what main makes before the server listens. What viper reads, the connection of the
-- database, the operating system and the servers of SeaweedFS are parameters.
pub mod Chosen
use pot_play_storage.Prelude.{Bytes, codes, ◌==◌, ◌++◌, Bool, Option, none, some, if◌then◌else◌}
use pot_play_storage.Prelude.Int.{ℤ}
use pot_play_storage.Strings.Decimal.{format_int}
use pot_play_storage.Errors.{Error, external, Result, ok, err}
use pot_play_storage.Backend.{StorageBackend}
use pot_play_storage.Config.{
  Settings, Outcome, made, failed, panicked, Pgx, RedisOptions, new_db_pool, new_redis,
}
use pot_play_storage.Local.{Os, new_local_storage, local_storage}
use pot_play_storage.Http.{Http}
use pot_play_storage.Seaweed.Simple.{new_simple_storage, simple_storage}

-- What viper gives for the keys that main reads, once the file is read.
pub record Configuration : Type 0 where
  pub database : Settings
  pub redis : Settings
  pub storage_type : Bytes
  pub local_path : Bytes
  pub master_url : Bytes
  pub port : ℤ

-- The configuration file, by whether there is a local one.
abbrev pub config_file : Bool → Bytes
config_file has_local =
    if has_local then codes "configs/config.local.yaml" else codes "configs/config.yaml"

-- Why the program ends before it serves: a message with its error, or a panic.
pub data Failure : Type 0 where
  fatal : Bytes → Error → Failure
  panic : Failure

module _ (P : Pgx) (O : Os) (H : Http) where
  -- What the server runs with.
  pub record Server : Type 1 where
    pub pool : P.Pool
    pub cache : RedisOptions
    pub storage : StorageBackend
    pub addr : Bytes

  pub data Started : Type 1 where
    serving : Server → Started
    stopped : Failure → Started

  abbrev States : Type 0
  States = O.State × H.State

  abbrev pub local_chosen : Bytes → States → Result StorageBackend × States
  local_chosen path (o, h) =
      let (store, o') = new_local_storage O path o in
      elim store [ err e ↦ (err e, (o', h)) | ok base ↦ (ok (local_storage O base), (o', h)) ]

  abbrev pub seaweed_chosen : Bytes → States → Result StorageBackend × States
  seaweed_chosen url (o, h) =
      let (store, h') = new_simple_storage H url h in
      elim store [ err e ↦ (err e, (o, h')) | ok urls ↦ (ok (simple_storage H urls), (o, h')) ]

  -- The store that "storage.type" names.
  unfoldable pub choose_storage : Configuration → States → Result StorageBackend × States
  unfolding new_simple_storage
  choose_storage c s =
      if c.storage_type == codes "local"
      then local_chosen c.local_path s
      else if c.storage_type == codes "seaweedfs"
      then seaweed_chosen c.master_url s
      else (err (external (codes "unsupported storage type: " ++ c.storage_type)), s)

  abbrev pub with_storage : Configuration → P.Pool → RedisOptions → States → Started × States
  with_storage c pool cache s =
      let (store, s') = choose_storage c s in
      elim store [
        | err e ↦ (stopped (fatal (codes "storage init failed") e), s')
        | ok storage ↦ (
          serving (record {
            pool = pool;
            cache = cache;
            storage = storage;
            addr = codes ":" ++ format_int c.port;
          }),
          s',
        )
      ]

  abbrev pub with_pool : Configuration → P.Pool → States → Started × States
  with_pool c pool s = elim (new_redis c.redis) [
    | some cache ↦ with_storage c pool cache s
    | none ↦ (stopped panic, s)
  ]

  -- main, up to the server: `has_local` says whether there is a local configuration file, and
  -- `read_config` is what reading a file gives.
  unfoldable pub start : Bool → (Bytes → Result Configuration) → States → Started × States
  unfolding choose_storage new_db_pool new_redis format_int
  start has_local read_config s = elim (read_config (config_file has_local)) [
    | err e ↦ (stopped (fatal (codes "config load failed") e), s)
    | ok c ↦ elim (new_db_pool P c.database) [
      | failed e ↦ (stopped (fatal (codes "db connect failed") e), s)
      | panicked ↦ (stopped panic, s)
      | made pool ↦ with_pool c pool s
    ]
  ]
