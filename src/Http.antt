-- ===== src/Http.antt =====
-- internal/httpapi/server.go: requests, responses and the server. JSON, base64, SHA-256 and the
-- pattern matching of `http.ServeMux` are the operations of `Library`. A response is what was
-- written: its status, its headers, and its body before it is rendered.
pub mod Middleware
pub mod Query
pub mod Handlers
pub mod Routes
pub mod Access
pub mod Answers
pub mod Disclosed
pub mod Public
pub mod Pages
use reading_lite_next.Prelude.{
  ℕ, ◌+◌, String, Bool, true, false, not, Option, none, some, List, [], ◌∷◌, ◌++◌, str_eq,
  if◌then◌else◌,
}
use reading_lite_next.Errors.{Context, Error, Result}
use reading_lite_next.Reading.{Time, Json, Status, SourceKind, Reading}
use reading_lite_next.Bookmarks.{Markup}
use reading_lite_next.Store.Terms.{Unicode}
use reading_lite_next.Store.Search.{Cursor}
use reading_lite_next.ReadingOps.{Service, Ops}
use reading_lite_next.ReadingOps.Commands.{BookmarkResult}
use reading_lite_next.ReadingOps.Markdown.{MarkdownImport}
use reading_lite_next.Dispatcher.{Waited}
use reading_lite_next.Dispatcher.Handle.{World}

pub record Request : Type 0 where
  pub ctx : Context
  pub method : String
  pub path : String
  pub header : String → String  -- `Header.Get`
  pub params : String → List String  -- `URL.Query`
  pub body : String

-- `readingDTO`
pub record ReadingDto : Type 0 where
  pub id : String
  pub url : String
  pub status : Status
  pub source_kind : SourceKind
  pub title : String
  pub author : String
  pub site : String
  pub lang : String
  pub word_count : ℕ
  pub extraction_mode : String
  pub summary : String
  pub summary_json : Json
  pub similar_json : Json
  pub diagnostics_json : Json
  pub error : String
  pub stale_reason : String
  pub tags : Option (List String)
  pub created_at : Time
  pub updated_at : Time

pub record ListResponse : Type 0 where
  pub readings : List ReadingDto
  pub total : ℕ
  pub next_cursor : String

pub record BuildInfo : Type 0 where
  pub version : String
  pub commit : String
  pub date : String

pub record HealthCheck : Type 0 where
  pub status : String
  pub error : String

pub record HealthDocument : Type 0 where
  pub status : String
  pub build : BuildInfo
  pub postgres : HealthCheck
  pub r2 : HealthCheck

-- What a handler renders: JSON documents, or the bytes of a blob or of the mux.
pub data Payload : Type 0 where
  empty : Payload
  error_document : String → String → Payload
  status_document : String → Status → Payload
  reading_document : ReadingDto → Payload
  list_document : ListResponse → Payload
  bookmarks_document : List BookmarkResult → Payload
  health_document : HealthDocument → Payload
  bytes : String → Payload

abbrev pub Headers : Type 0
Headers = List (String × String)

pub record Response : Type 0 where
  pub status : ℕ
  pub headers : Headers
  pub body : Payload

unfoldable without : String → Headers → Headers
without name [] = []
without name ((n, v) ∷ hs) =
    let rest = without name hs in if str_eq n name then rest else (n, v) ∷ rest

-- `Header().Set`, with a canonical name
unfoldable pub set_header : String → String → Headers → Headers
unfolding without
set_header name value hs = without name hs ++ ((name, value) ∷ [])

-- `Header().Add`
abbrev pub add_header : String → String → Headers → Headers
add_header name value hs = hs ++ ((name, value) ∷ [])

-- on the header map of a response writer
abbrev pub write_json : Headers → ℕ → Payload → Response
write_json hs status body = record {
  status = status;
  headers = set_header "Content-Type" "application/json" hs;
  body = body;
}

abbrev pub write_err : Headers → ℕ → String → String → Response
write_err hs status code msg = write_json hs status (error_document code msg)

-- The handlers that `Routes` registers, with the `id` of the path. `unmatched` is the mux's own
-- answer to a path or a method that it does not know: its status, headers and text.
pub data Route : Type 0 where
  healthz ingest import_markdown import_bookmarks list_readings : Route
  get_reading get_content get_raw reprocess : String → Route
  unmatched : ℕ → Headers → String → Route

-- `first`: a `Decode` of the limited body, and what follows the value; `ended`: whether the next
-- `Decode` finds the end of the input.
pub record Library : Type 0 where
  pub unicode : Unicode
  pub markup : Markup
  pub sha256 : String → String
  pub first_url : String → Option (String × String)
  pub first_markdown : String → Option (MarkdownImport × String)
  pub ended : String → Bool
  pub size : String → ℕ  -- in bytes
  pub marshal_cursor : Cursor → String
  pub unmarshal_cursor : String → Option Cursor
  pub encode_base64 : String → String
  pub decode_base64 : String → Option String
  pub quote : String → String  -- `%q`
  pub mux : String → String → Route

pub record Server : Type 0 where
  pub service : Service
  pub token : String
  pub cors_allowed_origins : List String
  pub build : BuildInfo
  pub postgres : Option (Context → Option Error)
  pub r2 : Option (Context → Option Error)

-- What other threads do meanwhile, and how a forced recovery's wait ends.
pub record Env : Type 0 where
  pub between : Ops → Ops
  pub waiting : World → World
  pub waited : Waited
  pub checking : Bool → Bool  -- the health state after the checks

pub record App : Type 0 where
  pub ops : Ops
  pub degraded : Bool
