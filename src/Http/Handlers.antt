-- ===== src/Http/Handlers.antt =====
-- internal/httpapi/server.go: the handlers.
use Prim.Native.String.{String}
use reading_lite_next.Prelude.{
  ℕ, Bool, true, false, not, ◌||◌, Option, none, some, List, [], ◌∷◌, ltb, str_eq, map,
  if◌then◌else◌,
}
use reading_lite_next.Prelude.Text.{trim_space}
use reading_lite_next.Errors.{
  Context, Error, message, is, invalid_url, not_found, blob_not_found, canceled, deadline_exceeded,
  multiple_json_values, Result, ok, err,
}
use reading_lite_next.Reading.{Reading, annotate_stale}
use reading_lite_next.Bookmarks.{parse as parse_bookmarks}
use reading_lite_next.Blobs
use reading_lite_next.Blobs.{Blob}
use reading_lite_next.Store.Memory.{get_by_id}
use reading_lite_next.Store.Search.{Page, Cursor, Query, search}
use reading_lite_next.ReadingOps.{Ops, StatusResult, ingest_url}
use reading_lite_next.ReadingOps.Commands.{
  BookmarkResult, import_bookmarks as import_bookmark_urls, reprocess as reprocess_reading,
}
use reading_lite_next.ReadingOps.Markdown.{MarkdownImport, import_markdown as import_document}
use reading_lite_next.Http.{
  Request, Response, Headers, ReadingDto, ListResponse, HealthCheck, Library, Server, Env, App,
  write_json, write_err, set_header, status_document, reading_document, list_document,
  bookmarks_document, health_document, bytes,
}
use reading_lite_next.Http.Middleware.{Handler}
use reading_lite_next.Http.Query.{query_from_request, encode_cursor}

abbrev pub max_body_bytes : ℕ
max_body_bytes = 1048576

-- `writeError`
unfoldable pub write_error : Headers → Error → Response
write_error hs e =
    if is e invalid_url
    then write_err hs 400 "invalid_url" "invalid reading url"
    else if is e not_found || is e blob_not_found
    then write_err hs 404 "not_found" "not found"
    else write_err hs 500 "internal" "internal server error"

abbrev pub created_status : Bool → ℕ
created_status true = 201
created_status false = 200

abbrev pub reading_dto_from : Reading → ReadingDto
reading_dto_from r = record {
  id = r.id;
  url = r.url;
  status = r.status;
  source_kind = r.source_kind;
  title = r.title;
  author = r.author;
  site = r.site;
  lang = r.lang;
  word_count = r.word_count;
  extraction_mode = r.extraction_mode;
  summary = r.summary;
  summary_json = r.summary_json;
  similar_json = r.similar_json;
  diagnostics_json = r.diagnostics_json;
  error = r.error;
  stale_reason = r.stale_reason;
  tags = r.tags;
  created_at = r.created_at;
  updated_at = r.updated_at;
}

-- what `decode` and `bookmarkURLsFromRequest` return: a value, or the response that was written
pub data Parsed (A : Type 0) : Type 0 where
  refused : Response → Parsed A
  parsed : A → Parsed A

abbrev pub with_ops : App → Response × Ops → Response × App
with_ops s (r, ops) = (r, record s { ops = ops })

-- the answers to a command's outcome
unfoldable pub status_answer : Headers → Result StatusResult × Ops → Response × Ops
status_answer hs (err e, ops) = (write_error hs e, ops)
status_answer hs (ok res, ops) =
    (write_json hs (created_status res.created) (status_document res.id res.status), ops)

unfoldable pub accepted_answer : Headers → Result StatusResult × Ops → Response × Ops
accepted_answer hs (err e, ops) = (write_error hs e, ops)
accepted_answer hs (ok res, ops) = (write_json hs 202 (status_document res.id res.status), ops)

unfoldable pub bookmarks_answer : Headers → Result (List BookmarkResult) × Ops → Response × Ops
bookmarks_answer hs (err e, ops) = (write_error hs e, ops)
bookmarks_answer hs (ok results, ops) = (write_json hs 200 (bookmarks_document results), ops)

-- `safeHealthError`
unfoldable pub safe_health_error : Error → String
safe_health_error e =
    if is e canceled
    then "canceled"
    else if is e deadline_exceeded
    then "timeout"
    else "unavailable"

unfoldable pub check_result : Option Error → HealthCheck
unfolding safe_health_error
check_result none = record { status = "ok"; error = "" }
check_result (some e) = record { status = "error"; error = safe_health_error e }

-- The time limit of the probe is part of the probe.
unfoldable pub run_health_check : Context → Option (Context → Option Error) → HealthCheck
unfolding check_result
run_health_check ctx none = record { status = "ok"; error = "" }
run_health_check ctx (some check) = check_result (check ctx)

abbrev pub skipped : HealthCheck
skipped = record { status = "skipped"; error = "" }

module _ (lib : Library) (srv : Server) (env : Env) where
  unfoldable pub health_answer : Headers → Bool → HealthCheck → HealthCheck → Response
  health_answer hs degraded postgres r2 =
      let down = degraded || not (str_eq postgres.status "ok") || not (str_eq r2.status "ok") in
      write_json hs (if down then 503 else 200) (
        health_document (record {
          status = if down then "degraded" else "ok";
          build = srv.build;
          postgres = postgres;
          r2 = r2;
        }))

  unfoldable pub healthz : Handler
  unfolding health_answer run_health_check
  healthz hs rq s =
      let after = record s { degraded = env.checking s.degraded } in
      if s.degraded
      then (
        write_json hs 503 (
            health_document (record {
              status = "degraded";
              build = srv.build;
              postgres = skipped;
              r2 = skipped;
            })),
        s,
      )
      else (
        health_answer hs after.degraded (run_health_check rq.ctx srv.postgres)
            (run_health_check rq.ctx srv.r2),
        after,
      )

  unfoldable pub decoded : {A : Type 0} → Headers → Option (A × String) → Parsed A
  decoded hs none = refused (write_err hs 400 "invalid_json" "invalid JSON request body")
  decoded hs (some (value, rest)) =
      if lib.ended rest
      then parsed value
      else refused (write_err hs 400 "invalid_json" "request body must contain one JSON value")

  -- `decode`: the size limit is a part of `read`
  unfoldable pub decode :
      {A : Type 0} → (String → Option (A × String)) → Headers → Request → Parsed A
  unfolding decoded
  decode read hs rq = decoded hs (read rq.body)

  unfoldable pub ingest_parsed : Headers → Context → Parsed String → App → Response × App
  unfolding status_answer
  ingest_parsed hs ctx (refused r) s = (r, s)
  ingest_parsed hs ctx (parsed url) s =
      with_ops s (status_answer hs (ingest_url srv.service env.between ctx url s.ops))

  unfoldable pub ingest : Handler
  unfolding ingest_parsed decode
  ingest hs rq s = ingest_parsed hs rq.ctx (decode lib.first_url hs rq) s

  unfoldable pub import_parsed : Headers → Context → Parsed MarkdownImport → App → Response × App
  unfolding status_answer
  import_parsed hs ctx (refused r) s = (r, s)
  import_parsed hs ctx (parsed req) s =
      if str_eq (trim_space req.markdown) ""
      then (write_err hs 400 "invalid_request" "markdown is required", s)
      else with_ops s (status_answer hs (import_document srv.service env.between ctx req s.ops))

  unfoldable pub import_markdown : Handler
  unfolding import_parsed decode
  import_markdown hs rq s = import_parsed hs rq.ctx (decode lib.first_markdown hs rq) s

  unfoldable pub bookmark_urls : Headers → Result (List String) → Parsed (List String)
  bookmark_urls hs (ok urls) = parsed urls
  bookmark_urls hs (err e) =
      if is e multiple_json_values
      then refused (write_err hs 400 "invalid_json" "request body must contain one JSON value")
      else refused (write_err hs 400 "invalid_json" "invalid JSON request body")

  unfoldable pub bookmark_urls_from_request : Headers → Request → Parsed (List String)
  unfolding bookmark_urls
  bookmark_urls_from_request hs rq =
      if ltb max_body_bytes (lib.size rq.body)
      then refused (write_err hs 400 "invalid_request" "request body is too large")
      else if str_eq (trim_space rq.body) ""
      then refused (write_err hs 400 "invalid_request" "bookmarks are required")
      else bookmark_urls hs (parse_bookmarks lib.markup rq.body (rq.header "Content-Type"))

  unfoldable pub bookmarks_parsed : Headers → Context → Parsed (List String) → App → Response × App
  unfolding bookmarks_answer
  bookmarks_parsed hs ctx (refused r) s = (r, s)
  bookmarks_parsed hs ctx (parsed []) s =
      (write_err hs 400 "invalid_request" "bookmarks are required", s)
  bookmarks_parsed hs ctx (parsed (url ∷ urls)) s =
      with_ops s
        (bookmarks_answer hs (import_bookmark_urls srv.service env.between ctx (url ∷ urls) s.ops))

  unfoldable pub import_bookmarks : Handler
  unfolding bookmarks_parsed
  import_bookmarks hs rq s = bookmarks_parsed hs rq.ctx (bookmark_urls_from_request hs rq) s

  -- `next_cursor`, where the page has one
  abbrev pub next_cursor_text : Cursor → String
  next_cursor_text c = if c.valid then encode_cursor lib c else ""

  abbrev pub list_response : Page → ListResponse
  list_response page = record {
    readings = map reading_dto_from page.readings;
    total = page.total;
    next_cursor = next_cursor_text page.next_cursor;
  }

  unfoldable pub page_answer : Headers → Result Page → Response
  page_answer hs (err e) = write_error hs e
  page_answer hs (ok page) = write_json hs 200 (list_document (list_response page))

  unfoldable pub queried : Headers → Context → Result Query → App → Response
  unfolding page_answer
  queried hs ctx (err e) s = write_err hs 400 "invalid_query" (message e)
  queried hs ctx (ok q) s = page_answer hs (search lib.unicode ctx q s.ops.world.store).0

  unfoldable pub list_readings : Handler
  unfolding queried
  list_readings hs rq s = (queried hs rq.ctx (query_from_request lib rq) s, s)

  unfoldable pub reading_answer : Headers → Result Reading → App → Response
  unfolding write_error
  reading_answer hs (err e) s = write_error hs e
  reading_answer hs (ok r) s =
      write_json hs 200
        (reading_document (reading_dto_from (annotate_stale r s.ops.world.now srv.service.ttls)))

  unfoldable pub get_reading : String → Handler
  unfolding reading_answer
  get_reading id hs rq s = (reading_answer hs (get_by_id rq.ctx id s.ops.world.store).0 s, s)

  unfoldable pub blob_answer : Headers → Bool → Result (Blob String) → Response
  blob_answer hs content (err e) = write_error hs e
  blob_answer hs content (ok blob) =
      let hs = set_header "X-Content-Type-Options" "nosniff" hs in
      let raw = set_header "Content-Type" "application/octet-stream" hs in
      let raw = set_header "Content-Disposition" "attachment; filename=\"raw-content\"" raw in
      let typed =
        if str_eq blob.content_type ""
        then hs
        else set_header "Content-Type" blob.content_type hs in
      record { status = 200; headers = if content then typed else raw; body = bytes blob.payload }

  unfoldable pub stream_found : Headers → Context → Bool → Result Reading → App → Response
  unfolding blob_answer
  stream_found hs ctx content (err e) s = write_error hs e
  stream_found hs ctx content (ok r) s =
      let key = if content then r.content_key else r.raw_key in
      if str_eq key ""
      then write_err hs 404 "not_found" "blob not found"
      else blob_answer hs content (Blobs.get ctx key s.ops.blobs)

  unfoldable pub stream_blob : Bool → String → Handler
  unfolding stream_found
  stream_blob content id hs rq s =
      (stream_found hs rq.ctx content (get_by_id rq.ctx id s.ops.world.store).0 s, s)

  unfoldable pub reprocess : String → Handler
  unfolding accepted_answer
  reprocess id hs rq s =
      with_ops s
        (accepted_answer hs (reprocess_reading srv.service env.waiting env.waited rq.ctx id s.ops))
