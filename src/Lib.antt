-- ===== src/Lib.antt =====
-- Verification library for inwheel-api, a registry of places and of how accessible they are.
--
-- The parts of the program, and how they interact. An import of OpenStreetMap data reads a file
-- (internal/sources/osm/pbf.go), keeps the elements that are places (filter.go), turns each into a
-- place and a profile (transformer.go, rank.go, a11y.go) and hands them to a sink (source.go). The
-- engine (internal/a11y/engine.go) computes the audit flags of a profile and the profile that a
-- place shows under its parent. A record of another source is matched against the places near it
-- (internal/identity): the resolver attaches a reference to the matched place, or queues the record
-- (internal/unmatched); after an import the sweep matches the queued rows near the touched places
-- again. The tables are written by internal/place/repository.go and internal/unmatched/repository.go.
-- The API (cmd/api) lists, shows, creates and patches places, behind its middleware
-- (internal/middleware), with keys that it registers, checks and revokes; it validates its input by
-- internal/validation and pages its lists by the cursors of internal/pagination.
--
-- The files. Common has the shared helpers: tests on numbers, lists, maps (Common.Dict), int64
-- (Common.Int), texts and decimal numbers (Common.Text), and errors and results (Common.Result).
-- Float64 has Go's float64 as its bit pattern. Models is pkg/models, its columns in Models.Columns.
-- A11y is internal/a11y. Osm is internal/sources/osm, one child per file. Identity is internal/identity: Compat, Normalize, Score,
-- Match, Resolve and Sweep. Database has the tables and what PostgreSQL decides; Unmatched and
-- Places are the queue and the place repository over it, and Profiles the two writes of profiles.
-- Draining puts the sweep, the resolver and the repositories together, as cmd/ingestion/main.go
-- does; Ingestion is the configuration, the batcher and the two pipelines of cmd/ingestion, where
-- Pipeline/Rows puts the import and UpsertBatch together. Validation
-- and Pagination are the packages of these names. Middleware is internal/middleware: RateLimiter
-- (middleware.go) and Http (the rest). Api is cmd/api: Listing (ListPlaces of main.go, with
-- internal/geo), Places (the other handlers of main.go, with internal/audit), Keys (auth.go,
-- handle_register.go and handle_revoke.go) and Errors (errors.go). Samples has the values that the
-- tests run on.
--
-- State and operations. A method that has effects is a function of a state that returns its result
-- and the state that it leaves, also beside an error. The interfaces of identity (CandidateRepo,
-- AttachRepo, EnqueueRepo, SweepRepo) and the two writes of the batcher (Ingestion.Batcher.Writers)
-- are records of such functions over a state of any type. The repositories over `Database` fill
-- them, and UpsertBatch is the flush of the batcher in Ingestion.Pipeline.Rows; the write of profiles
-- there is an argument over `Database`, which UpsertProfileIngestion fills over calls of gorm
-- (Profiles.Tx) that leave the table of places as it is. Each statement of SQL may fail; it then changes nothing. A
-- transaction ends with a COMMIT, which may fail, or with a ROLLBACK. Times are numbers; each call
-- of time.Now is an argument. A pointer that may be nil is an Option, a map is an association list.
--
-- Parameters, for code that is not in the repository: the rounding arithmetic of the processor, the
-- functions of the package math and strconv.ParseFloat (Float64.Arithmetic); golang.org/x/text and
-- the tables of the package unicode (Identity.Normalize.Unicode); what PostgreSQL and PostGIS decide
-- (Database.Postgres); gorm inside a transaction and the JSON libraries (Profiles.Tx, Profiles.Json);
-- encoding/json (Models.Columns.Marshaler); base64, the layouts of times and uuid.Parse
-- (Pagination.Codec); ILIKE and the predicates of PostGIS (Api.Listing.Predicates); the bucket of
-- golang.org/x/time/rate (Middleware.RateLimiter.Rate); SHA-256, the random source and the generated
-- ids (Api.Keys.Outside); gorm in the handlers (Api.Places.Store). The objects of a map file are an
-- argument of the import, and the rows of the places are an argument of ListPlaces, which reads its
-- query as SQL does: the rows are filtered, ordered by updated_at DESC, id ASC, and cut.
--
-- Bounds. All loops are recursion on their list or text. One definition on fuel prints a number in
-- decimal: it has 20 digits, and an int64 has 19.
-- The client that follows the cursors is on fuel, one request per row and one more.
--
-- Not modelled: main and the chain of handlers of cmd/api, the reading of request bodies, the routes
-- for health and documentation; the goroutine that calls sweep, and a sweep that runs within a call of
-- Allow; the log lines of the imports, the connection to the database, and generated
-- code. SQL is modelled where the repository writes it out.
pub mod Common
pub mod Float64
pub mod Models
pub mod A11y
pub mod Osm
pub mod Identity
pub mod Database
pub mod Unmatched
pub mod Places
pub mod Draining
pub mod Profiles
pub mod Ingestion
pub mod Pagination
pub mod Validation
pub mod Api
pub mod Middleware
pub mod Samples
