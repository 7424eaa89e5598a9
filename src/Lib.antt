-- ===== src/Lib.antt =====
-- Reading Lite: a service that ingests links and markdown documents, processes each of them once in
-- the background, and stores the result. These modules model the core of its Go code.
--
-- The commands (internal/readingops/service.go) create or reset a row of the store
-- (internal/store/memory.go) and submit its id to the dispatcher (internal/dispatch/dispatcher.go),
-- which runs a handler for it, the pipeline (internal/pipeline/pipeline.go), and writes the outcome
-- back to the row; what happens after an error is decided by internal/dispatch/dispatch.go. The
-- pipeline fetches, extracts, embeds and summarizes its source. A run writes its content under a
-- lease, the start time of its row. Bulky bodies are blobs (internal/blobs/blobs.go), embeddings
-- are in a similarity index (internal/vector/vector.go), and rows are also joined to manual
-- batches, which the store keeps.
--
-- Files and code:
--   Reading, Reading/*: internal/reading/status.go and reading.go (Status, CanTransition,
--     AnnotateStale).
--   Dispatch, Dispatch/*: internal/dispatch/dispatch.go (Classify, backoff, decide).
--   Dispatcher: the claim table and the channel of internal/dispatch/dispatcher.go (claim, release,
--     active, beginRun, forceClaim, queueClaimed, Submit), each a function on the dispatcher.
--   Dispatcher/Handle: one run (handle, finish, markReady, markFailed, redispatch) and
--     ForceSubmitAfter, on a world of dispatcher, store and timers.
--   Dispatcher/Sweep: Sweep and enqueueRecovered.
--   Dispatcher/Ownership, Queue, Outcomes: the theorems; Ownership has the step relation of the
--     critical sections.
--   Dispatcher/Workers: Run of the same file, one turn of a worker at a time, and the system of its
--     threads, with the items that they carry. Found, Copies, Exclusive, Accounting and Refines
--     beside it are its invariants and the link between a turn and the system.
--   Store/Types, Store/Memory, Store/Updates: the reading operations of internal/store/memory.go,
--     each from a context and a store to a result and a store; Store/Calls runs sequences of them.
--   Store/Batches, Store/Batches/Create, Submit, Update, Item: the batch operations of the same
--     file; Store/Batches/Calls runs sequences of them.
--   Store/Terms, Store/Search, Store/Listing: Search with its terms, sorting and cursors, and
--     ListBatches, of the same file. Store/Search/Pages has the client that follows the cursors.
--   Blobs: internal/blobs/blobs.go. Vector, Vector/Similar: internal/vector/vector.go, with Query;
--     Vector/Ranking has its theorem.
--   Pipeline: the types and ports of internal/pipeline/pipeline.go and its accesses to shared state;
--     Pipeline/Fields: the values that it computes; Pipeline/Process: Process and its steps
--     (acquire, reuse, index, upsertVector, summarizeAndFinish, notifyBestEffort), as `do` blocks
--     over the errors and states of Effects. Pipeline/Escape is about the email's body.
--   Pipeline/Process/Superseded, Done, Mail, Resume, Confined: the theorems on a run; Keeps, Steps,
--     Asked, Durable, Writes, Rows, Acquired, Finish, Stored and Whole beside them: what each
--     step keeps and what it makes true.
--   ReadingOps, ReadingOps/Commands, ReadingOps/Markdown: internal/readingops/service.go (IngestURL,
--     ImportBookmarks, Reprocess, ImportMarkdown).
--     ReadingOps/Idempotent and ReadingOps/Markdown/Staging have their theorems.
--   Reading/Url, Reading/Url/Keys: internal/reading/url.go (URLKey, ClassifySource).
--   Bookmarks: internal/bookmarks/bookmarks.go (Parse, HREFs).
--   Fetch, Fetch/Guard, Fetch/Dials: internal/fetch/http.go (Get, the redirects, the guarded dialer and
--     IsPrivateAddress). Httpx, Httpx/Delay: internal/httpx/httpx.go, the errors of an answer.
--   Extract, Extract/Words, Extract/Salvage: internal/extract/readability.go (Extract and its tiers).
--   Http: the requests, responses and state of internal/httpapi/server.go; Http/Middleware, Query,
--     Handlers, Routes: the functions of that file. Http/Access, Public, Answers, Disclosed and Pages
--     have their theorems.
--   Config, Config/Fields, Checks, Load: internal/config/config.go (LoadEnv); Config/Valid has its
--     theorem.
--   Prelude, Dict, Errors: Go's integers, texts, maps and error values; Prelude/Parse: strconv.Atoi
--     and functions of package strings.
--   Tests: the theorems at concrete inputs.
--
-- Conventions: a time is a natural number of nanoseconds since Go's zero time; a context is the
-- error it reports, if any; a nil pointer, slice or message is `none`; a map is a list of entries
-- with distinct keys; values are immutable, so the copies that the Go code makes to avoid aliasing
-- are left out. The order of `range` over a map is the order of the entries. An operation that runs
-- under a lock is one step. All loops run over lists, but for the
-- digits of a number, whose bound is its value plus one; the client of Store/Search/Pages asks for
-- as many pages as there are matches and one more.
--
-- Parameters: JsonCodec stands for encoding/json and reflect.DeepEqual, with the documented facts
-- that valid JSON decodes and that a decoded value equals itself; Unicode for the tables of package
-- unicode; Floats for float32 and float64, with the documented fact that cmp.Compare is an order;
-- UrlRules for URLKey and ClassifySource as the commands call them; UrlLibrary for net/url below
-- those two, and EnvLibrary for net/url, time.ParseDuration and pgx below LoadEnv; Net for the resolver
-- and the dialer, Markup and Pages for the HTML
-- libraries, Library and Env of Http for JSON, base64, SHA-256, the
-- mux and the clock; `new_id` for the id generator.
-- The ports of the pipeline are functions of the state in which they are called, so that they can
-- answer differently each time, and `others` is what other threads do before each access of a run
-- to shared state; the handler of the dispatcher, and what other threads do while a run of it or a
-- wait lasts, are functions as well. Tokens and runs are numbers; a token counter of 64 bits is not
-- taken past its end.
--
-- Not modelled: the PostgreSQL backend, which is SQL behind generated code; the transcripts
-- and the clients of remote services behind the pipeline's ports, the start-up of the processes, the command-line client, and the
-- browser code; the fields of the configuration that are logged, and the Inline mode of the
-- dispatcher, which only tests use.
pub mod Prelude
pub mod Dict
pub mod Errors
pub mod Reading
pub mod Dispatch
pub mod Store
pub mod Dispatcher
pub mod Blobs
pub mod Vector
pub mod Effects
pub mod Pipeline
pub mod ReadingOps
pub mod Tests
pub mod Http
pub mod Bookmarks
pub mod Httpx
pub mod Fetch
pub mod Extract
pub mod Config
