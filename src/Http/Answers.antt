-- ===== src/Http/Answers.antt =====
-- internal/httpapi/server.go: the answers of the handlers, before `jsonMuxErrors`.
use Prim.Native.String.{String}
use reading_lite_next.Prelude.{
  ◌≡◌, refl, Bool, true, false, some, none, Option, List, [], ◌∷◌, arith, str_eq, if◌then◌else◌,
  ltb,
}
use reading_lite_next.Prelude.Text.{trim_space}
use reading_lite_next.Bookmarks.{parse as parse_bookmarks}
use reading_lite_next.Errors.{
  canceled, deadline_exceeded, multiple_json_values, Context, Error, Result, ok, err, is,
}
use reading_lite_next.Reading.{Reading}
use reading_lite_next.Blobs
use reading_lite_next.Blobs.{Blob}
use reading_lite_next.Store.Search.{Query, Page}
use reading_lite_next.ReadingOps.{ingest_url}
use reading_lite_next.ReadingOps.Commands.{import_bookmarks as import_bookmark_urls}
use reading_lite_next.ReadingOps.Markdown.{MarkdownImport, import_markdown as import_document}
use reading_lite_next.Http.{
  Request, Headers, Library, Server, Env, App, health_document, write_err, write_json,
}
use reading_lite_next.Http.Handlers.{
  Parsed, refused, parsed, healthz, queried, page_answer, safe_health_error, run_health_check,
  decoded, ingest_parsed, import_parsed, bookmark_urls, bookmark_urls_from_request,
  bookmarks_parsed, reading_answer, blob_answer, stream_found, check_result, health_answer,
  with_ops, skipped, max_body_bytes,
}
use reading_lite_next.Http.Public.{
  is_public, is_coarse, Explained, IsAnswer, one_of, one_pair, write_error-IsAnswer,
  status_answer-IsAnswer, bookmarks_answer-IsAnswer,
}

module _ (lib : Library) (rq : Request) (hs : Headers) (srv : Server) (env : Env) where
  coarse_of :
      (b : Bool) (t v : String)
      → is_coarse t ≡ true
      → is_coarse v ≡ true
      → is_coarse (if b then t else v) ≡ true
  coarse_of true t v h k = h
  coarse_of false t v h k = k

  safe_health_error-is_coarse : (e : Error) → is_coarse (safe_health_error e) ≡ true
  unfolding safe_health_error is_coarse
  safe_health_error-is_coarse e =
      coarse_of (is e canceled) "canceled" _ refl
        (coarse_of (is e deadline_exceeded) "timeout" "unavailable" refl refl)

  check_result-is_coarse : (e : Option Error) → is_coarse (check_result e).error ≡ true
  unfolding check_result safe_health_error is_coarse
  check_result-is_coarse none = refl
  check_result-is_coarse (some e) = safe_health_error-is_coarse e

  check-is_coarse :
      (ctx : Context) (check : Option (Context → Option Error))
      → is_coarse (run_health_check ctx check).error ≡ true
  unfolding run_health_check is_coarse
  check-is_coarse ctx none = refl
  check-is_coarse ctx (some check) = check_result-is_coarse (check ctx)

  pub healthz-IsAnswer : (s : App) → IsAnswer lib rq (healthz lib srv env hs rq s).0
  unfolding healthz health_answer is_public is_coarse
  healthz-IsAnswer s =
      one_pair lib rq hs s.degraded
        (
          write_json hs 503 (
              health_document (record {
                status = "degraded";
                build = srv.build;
                postgres = skipped;
                r2 = skipped;
              })),
          s,
        )
        _ (record { answer = refl })
        (record {
          answer =
              ground (arith, check-is_coarse rq.ctx srv.postgres, check-is_coarse rq.ctx srv.r2);
        })

  abbrev pub Safe : {A : Type 0} → Parsed A → Type 0
  Safe (refused r) = IsAnswer lib rq r
  Safe (parsed a) = Unit

  one_parsed :
      {A : Type 0} (b : Bool) (p q : Parsed A) → Safe p → Safe q → Safe (if b then p else q)
  one_parsed true p q h k = h
  one_parsed false p q h k = k

  pub decoded-Safe : {A : Type 0} (x : Option (A × String)) → Safe (decoded lib srv env hs x)
  unfolding decoded is_public
  decoded-Safe none = record { answer = refl }
  decoded-Safe (some (value, rest)) = one_parsed (lib.ended rest) _ _ tt (record { answer = refl })

  pub ingest_parsed-IsAnswer :
      (p : Parsed String) (s : App)
      → Safe p
      → IsAnswer lib rq (ingest_parsed lib srv env hs rq.ctx p s).0
  unfolding ingest_parsed
  ingest_parsed-IsAnswer (refused r) s h = h
  ingest_parsed-IsAnswer (parsed url) s h =
      status_answer-IsAnswer lib rq hs (ingest_url srv.service env.between rq.ctx url s.ops)

  pub import_parsed-IsAnswer :
      (p : Parsed MarkdownImport) (s : App)
      → Safe p
      → IsAnswer lib rq (import_parsed lib srv env hs rq.ctx p s).0
  unfolding import_parsed is_public
  import_parsed-IsAnswer (refused r) s h = h
  import_parsed-IsAnswer (parsed req) s h =
      one_pair lib rq hs (str_eq (trim_space req.markdown) "")
        (write_err hs 400 "invalid_request" "markdown is required", s) (with_ops s _)
        (record { answer = refl })
        (status_answer-IsAnswer lib rq hs
          (import_document srv.service env.between rq.ctx req s.ops))

  pub bookmark_urls-Safe : (x : Result (List String)) → Safe (bookmark_urls lib srv env hs x)
  unfolding bookmark_urls is_public
  bookmark_urls-Safe (ok urls) = tt
  bookmark_urls-Safe (err e) =
      one_parsed {A = List String} (is e multiple_json_values)
        (refused (write_err hs 400 "invalid_json" "request body must contain one JSON value"))
        (refused (write_err hs 400 "invalid_json" "invalid JSON request body"))
        (record { answer = refl }) (record { answer = refl })

  pub request-Safe : Safe (bookmark_urls_from_request lib srv env hs rq)
  unfolding bookmark_urls_from_request is_public
  request-Safe =
      one_parsed {A = List String} (ltb max_body_bytes (lib.size rq.body))
        (refused (write_err hs 400 "invalid_request" "request body is too large")) _
        (record { answer = refl })
        (one_parsed {A = List String} (str_eq (trim_space rq.body) "")
          (refused (write_err hs 400 "invalid_request" "bookmarks are required")) _
          (record { answer = refl })
          (bookmark_urls-Safe (parse_bookmarks lib.markup rq.body (rq.header "Content-Type"))))

  pub bookmarks_parsed-IsAnswer :
      (p : Parsed (List String)) (s : App)
      → Safe p
      → IsAnswer lib rq (bookmarks_parsed lib srv env hs rq.ctx p s).0
  unfolding bookmarks_parsed is_public
  bookmarks_parsed-IsAnswer (refused r) s h = h
  bookmarks_parsed-IsAnswer (parsed []) s h = record { answer = refl }
  bookmarks_parsed-IsAnswer (parsed (url ∷ urls)) s h =
      bookmarks_answer-IsAnswer lib rq hs
        (import_bookmark_urls srv.service env.between rq.ctx (url ∷ urls) s.ops)

  pub page_answer-IsAnswer : (x : Result Page) → IsAnswer lib rq (page_answer lib srv env hs x)
  unfolding page_answer is_public
  page_answer-IsAnswer (ok page) = record { answer = refl }
  page_answer-IsAnswer (err e) = write_error-IsAnswer lib rq hs e

  pub queried-IsAnswer :
      (x : Result Query) (s : App)
      → Explained lib rq x
      → IsAnswer lib rq (queried lib srv env hs rq.ctx x s)
  unfolding queried is_public
  queried-IsAnswer (ok q) s h = page_answer-IsAnswer _
  queried-IsAnswer (err e) s h = record { answer = ground (arith, h) }

  pub reading_answer-IsAnswer :
      (x : Result Reading) (s : App) → IsAnswer lib rq (reading_answer lib srv env hs x s)
  unfolding reading_answer is_public
  reading_answer-IsAnswer (ok r) s = record { answer = refl }
  reading_answer-IsAnswer (err e) s = write_error-IsAnswer lib rq hs e

  pub blob_answer-IsAnswer :
      (content : Bool) (x : Result (Blob String))
      → IsAnswer lib rq (blob_answer lib srv env hs content x)
  unfolding blob_answer is_public
  blob_answer-IsAnswer content (ok b) = record { answer = refl }
  blob_answer-IsAnswer content (err e) = write_error-IsAnswer lib rq hs e

  pub stream_found-IsAnswer :
      (content : Bool) (x : Result Reading) (s : App)
      → IsAnswer lib rq (stream_found lib srv env hs rq.ctx content x s)
  unfolding stream_found is_public
  stream_found-IsAnswer content (err e) s = write_error-IsAnswer lib rq hs e
  stream_found-IsAnswer content (ok r) s =
      let key = if content then r.content_key else r.raw_key in
      one_of lib rq hs (str_eq key "") (write_err hs 404 "not_found" "blob not found") _
        (record { answer = refl }) (blob_answer-IsAnswer content (Blobs.get rq.ctx key s.ops.blobs))
