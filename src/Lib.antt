-- ===== src/Lib.antt =====
-- pot-play-storage: a file store that keeps equal contents once.
--
-- The program. A client uploads a file over HTTP (internal/handler/file.go). The service
-- (internal/service/storage.go) checks its header (pkg/validator/file.go), puts the bytes into a
-- store (pkg/storage/interface.go) under a new UUID, and looks up their SHA-256 checksum in the
-- database (internal/repository/file.go, migrations/001_initial.sql). A content that is there
-- already gets one more reference, and the new bytes go. Otherwise the content gets a row in
-- `storage`, and the file a row in `files` that refers to it. A deletion takes a reference back, and
-- removes bytes and row when none is left. A download finds the path of the bytes through the two
-- tables, or through the cache of JSON texts that the repository keeps.
--
-- The files, and the code that they are about:
--   Strings, Strings/Laws: Go's strings and path/filepath on bytes, as far as the code uses them.
--   Utf8, Utf8/Laws: the runes of a string, unicode.IsControl, strings.ToUpper and ToLower. The case
--     of a letter outside ASCII is a parameter, CaseTables.
--   Model, Model/Encoding, Model/Json: internal/model/file.go: Storage, File, FileHeader, the getters,
--     and the JSON that the struct tags give, with its round trips. A JSON text is a tree; times are
--     values of their own.
--   Errors: the errors of the validator as data with their texts, and results of calls.
--   Errors/Sanitize, Errors/Secrecy: pkg/errors/security.go.
--   Validator and below: pkg/validator/file.go. ValidateFilename is `validate_filename`, and so on.
--   Environment: what comes from outside: failing statements and cache calls, rows that break off,
--     clocks, UUIDs and how the database reads one from a text, the checksum, the case tables. All
--     theorems hold for every such environment but for the conditions that they state.
--   Database and below: the two tables of migrations/001_initial.sql with their constraints, one
--     function for each SQL statement of the repository, and what a statement does to the counts.
--   Repository and below: internal/repository/file.go, one function for each method. Repository/Calls
--     has the calls of the database and the cache that the methods are made of, Repository/Rows the
--     rows that its queries read; Repository/Statements and Repository/Laws say what the methods that
--     write and those that read do, and Repository/Listing what a second listing gives.
--   Backend, Backend/Memory: pkg/storage/interface.go as a record of operations with laws, and a
--     store in memory that meets them.
--   Paths and below: path/filepath on segments, and the place that a path leads to.
--   Local and below: pkg/storage/local.go over the operating system, a parameter (Os). `sanitize_path`
--     is sanitizePath, `local_storage` the four methods. Local/Names and Local/Inside are about the
--     paths that are accepted, Local/FileSystem, Local/Store and Local/Confined about what the methods
--     do to the files, Local/Listing about List, Local/Identifiers about identifiers as paths.
--     Local/Disk is a file system in memory.
--   Strings/Decimal: the verb %d. Http: the client of net/http and the server at its other end.
--   Seaweed and below: pkg/storage/seaweedfs_simple.go (`simple_storage`) and seaweedfs.go
--     (`seaweed_storage`), with what they share in Seaweed. Seaweed/Filer says what a filer does,
--     Seaweed/Mapping what the second store keeps there. Seaweed/Server is a filer in memory.
--   Local/Served, Seaweed/Served: the service over these stores.
--   Config, Config/Dsn: internal/config/config.go, and how a connection string is read back.
--   Startup, Startup/Chosen: cmd/main.go up to the server: `start`, with what each step needs.
--   Service: internal/service/storage.go. `World` is the repository, the store and two counters;
--     `upload`, `download`, `delete` and `list_files` are the methods, each with its steps in the
--     order of the source.
--   Service/State, Service/Held: the well-formed worlds (IsConsistent) and the abstract view of one,
--     the content of each file (content_of).
--   Service/Outcomes, Service/Released, Service/Upload, Service/Delete: what a call leaves behind, and
--     that it keeps a world consistent.
--   Service/Stored, Service/View, Service/Removal: what a client sees of an upload and a deletion.
--   Service/Refused: what a client sees of an upload that fails.
--   Service/Sound, Repository/Covered, Database/Covered: the counts when statements fail.
--   Service/Drawn, Service/Issued, Repository/Kept: which paths and identifiers are in the tables.
--   Service/Runs, Service/History: sequences of calls as a relation between worlds, and what they
--     leave: `replay` is the map from files to contents that the successful calls make.
--   Service/Download, Service/Faults: what a download gives, and what failing statements leave.
--   Handler and below: internal/handler/file.go. A handler takes what the client sent and the world to
--     a reply and the new world.
--   Server and below: the routes of cmd/main.go and the server: `serve` takes a request to an answer
--     and the new world, and `learnt` is what a client learns from an answer. How gin matches a path
--     with the routes is a parameter, Router.
--   Tests and below: small worlds, runs on them, and the theorems applied to them.
--
-- Taken as given. A statement that fails has changed nothing, and each statement is one step; two
-- clients do not run at once. Put reads its reader to the end, so the bytes of an upload and their
-- checksum are those of one content. The store meets the laws of Backend.IsLawful, which allow it to
-- fail and hold for the paths that are names of it; a Get whose reader fails counts as failed. The
-- file system has no links, the filer does what its status codes say, and the text syntax of JSON in
-- its responses is a parameter; objects there have each key once, spelt as the tag. Entries of the
-- cache do not expire by themselves. Strings given to encoding/json are valid UTF-8, as the database's
-- are. Loops over lists are structural recursions, the decoder of UTF-8 recurses on the bytes, and the
-- digits of a number come with as many rounds as it counts, which spelt-decimal shows to be enough.
-- Counts are integers with the range test of INTEGER where a statement writes them. The identifier
-- of a file stands in its row as PostgreSQL prints it, which is the text that uuid.NewString gives; a
-- request may spell it in any way that the database reads (Env.read_uuid).
--
-- Not modelled: the listener, the signals and the shutdown of the main program, requests that are
-- served at the same time, and the logger.
pub mod Prelude
pub mod Strings
pub mod Utf8
pub mod Paths
pub mod Model
pub mod Errors
pub mod Validator
pub mod Environment
pub mod Database
pub mod Repository
pub mod Backend
pub mod Http
pub mod Service
pub mod Local
pub mod Seaweed
pub mod Config
pub mod Startup
pub mod Handler
pub mod Server
mod Tests
