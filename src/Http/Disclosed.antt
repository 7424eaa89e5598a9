-- ===== src/Http/Disclosed.antt =====
-- internal/httpapi/server.go: what an error response tells its client.
use Prim.Native.String.{String, ◌++◌ as append}
use reading_lite_next.Prelude.{
  ◌≡◌, refl, Bool, true, false, some, none, Option, [], ◌||◌, ◌==◌, arith, eq_iff, str_eq,
  if◌then◌else◌, ltb, contains, not,
}
use reading_lite_next.Errors.{Result, ok, err, message}
use reading_lite_next.Reading.{Status}
use reading_lite_next.Store.Memory.{get_by_id}
use reading_lite_next.Store.Search.{Query, Cursor, SortMode}
use reading_lite_next.Http.{
  Request, Response, Headers, Library, Server, Env, App, Route, write_err, add_header, set_header,
}
use reading_lite_next.Http.Middleware.{
  Handler, auth, authorized, unauthorized, cors, cors_free, preflight, denied_preflight,
  is_cors_preflight, json_mux_errors, replace_error,
}
use reading_lite_next.Http.Query.{
  first, query_from_request, checked, at_cursor, decode_cursor, plain_query, parse_sort,
  parse_status, decoded_cursor, unmarshaled, invalid_cursor,
}
use reading_lite_next.Http.Handlers.{
  ingest, import_markdown, import_bookmarks, list_readings, get_reading, stream_blob, reprocess,
  decode, bookmark_urls_from_request,
}
use reading_lite_next.Http.Routes.{serve, mux, on_route}
use reading_lite_next.Http.Public.{
  is_public, Explained, IsAnswer, IsPublic, accepted_answer-IsAnswer,
}
use reading_lite_next.Http.Answers.{
  decoded-Safe, request-Safe, healthz-IsAnswer, ingest_parsed-IsAnswer, import_parsed-IsAnswer,
  bookmarks_parsed-IsAnswer, queried-IsAnswer, reading_answer-IsAnswer, stream_found-IsAnswer,
}

module _ (lib : Library) (rq : Request) where
  cursor_if :
      (b : Bool) (c : Cursor) → Explained lib rq (if b then ok c else err (invalid_cursor lib))
  unfolding message
  cursor_if true c = tt
  cursor_if false c = refl

  decoded_cursor-Explained : (c : Option Cursor) → Explained lib rq (decoded_cursor lib c)
  unfolding decoded_cursor message
  decoded_cursor-Explained none = refl
  decoded_cursor-Explained (some c) = cursor_if c.valid c

  unmarshaled-Explained : (t : Option String) → Explained lib rq (unmarshaled lib t)
  unfolding unmarshaled message
  unmarshaled-Explained none = refl
  unmarshaled-Explained (some t) = decoded_cursor-Explained (lib.unmarshal_cursor t)

  at_cursor-Explained :
      (q : Query) (c : Result Cursor) → Explained lib rq c → Explained lib rq (at_cursor lib q c)
  at_cursor-Explained q (ok c) h = tt
  at_cursor-Explained q (err e) h = h

  query_if :
      (b : Bool) (q : Query) (c : Result Query)
      → Explained lib rq c
      → Explained lib rq (if b then ok q else c)
  query_if true q c h = tt
  query_if false q c h = h

  checked-Explained :
      (sort : Option SortMode) (status : Option Status)
      → Explained lib rq (checked lib rq sort status)
  unfolding checked decode_cursor message
  checked-Explained none status = ground (
    arith,
    eq_iff (append "unsupported sort " (lib.quote (first (rq.params "sort"))))
        (append "unsupported sort " (lib.quote (first (rq.params "sort")))),
  )
  checked-Explained (some sort) none = ground (
    arith,
    eq_iff (append "unsupported status " (lib.quote (first (rq.params "status"))))
        (append "unsupported status " (lib.quote (first (rq.params "status")))),
  )
  checked-Explained (some sort) (some status) =
      query_if (str_eq (first (rq.params "cursor")) "") (plain_query lib rq sort status) _ (
        at_cursor-Explained (plain_query lib rq sort status) _
          (unmarshaled-Explained (lib.decode_base64 (first (rq.params "cursor")))))

module _ (lib : Library) (srv : Server) (env : Env) (rq : Request) where
  -- the mux answers a request that it knows no handler for with a redirect, a 404 or a 405
  abbrev pub MuxRefuses : Route → Type 0
  MuxRefuses (Route.unmatched status headers text) =
      ltb status 400 || ((status == 404) || (status == 405)) ≡ true
  MuxRefuses _ = Unit

  on_route-IsAnswer :
      (route : Route) (hs : Headers) (s : App)
      → MuxRefuses route
      → IsAnswer lib rq (on_route lib srv env route hs rq s).0
  unfolding on_route ingest import_markdown import_bookmarks list_readings get_reading stream_blob
      reprocess decode is_public query_from_request
  on_route-IsAnswer Route.healthz hs s h = healthz-IsAnswer lib rq hs srv env s
  on_route-IsAnswer Route.ingest hs s h =
      ingest_parsed-IsAnswer lib rq hs srv env (decode lib srv env lib.first_url hs rq) s
        (decoded-Safe lib rq hs srv env (lib.first_url rq.body))
  on_route-IsAnswer Route.import_markdown hs s h =
      import_parsed-IsAnswer lib rq hs srv env (decode lib srv env lib.first_markdown hs rq) s
        (decoded-Safe lib rq hs srv env (lib.first_markdown rq.body))
  on_route-IsAnswer Route.import_bookmarks hs s h =
      bookmarks_parsed-IsAnswer lib rq hs srv env (bookmark_urls_from_request lib srv env hs rq) s
        (request-Safe lib rq hs srv env)
  on_route-IsAnswer Route.list_readings hs s h =
      queried-IsAnswer lib rq hs srv env (query_from_request lib rq) s (
        checked-Explained lib rq (parse_sort (first (rq.params "sort")))
          (parse_status (first (rq.params "status"))))
  on_route-IsAnswer (Route.get_reading id) hs s h = reading_answer-IsAnswer lib rq hs srv env _ s
  on_route-IsAnswer (Route.get_content id) hs s h =
      stream_found-IsAnswer lib rq hs srv env true (get_by_id rq.ctx id s.ops.world.store).0 s
  on_route-IsAnswer (Route.get_raw id) hs s h =
      stream_found-IsAnswer lib rq hs srv env false (get_by_id rq.ctx id s.ops.world.store).0 s
  on_route-IsAnswer (Route.reprocess id) hs s h = accepted_answer-IsAnswer lib rq hs _
  on_route-IsAnswer (Route.unmatched status headers text) hs s h = record {
    answer = ground (arith, h);
  }

  IsPublic-if :
      (b : Bool) (r v : Response)
      → (b ≡ true → IsPublic lib rq r)
      → (b ≡ false → IsPublic lib rq v)
      → IsPublic lib rq (if b then r else v)
  IsPublic-if true r v h k = h refl
  IsPublic-if false r v h k = k refl

  replace_error-IsPublic : (r : Response) → IsAnswer lib rq r → IsPublic lib rq (replace_error r)
  unfolding replace_error is_public
  replace_error-IsPublic r a =
      IsPublic-if (r.status == 404) (write_err r.headers 404 "not_found" "not found") _
        (λ h. record { public = refl })
        (λ h.
          IsPublic-if (r.status == 405)
            (write_err r.headers 405 "method_not_allowed" "method not allowed") r
            (λ k. record { public = refl })
            (λ k. record { public = ground (arith, a.answer, h, k) }))

  pair_if :
      (b : Bool) (x y : Response × App)
      → IsPublic lib rq x.0
      → IsPublic lib rq y.0
      → IsPublic lib rq (if b then x else y).0
  pair_if true x y h k = h
  pair_if false x y h k = k

  auth-IsPublic :
      (inner : Handler) (hs : Headers) (s : App)
      → IsPublic lib rq (inner hs rq s).0
      → IsPublic lib rq (auth lib srv inner hs rq s).0
  unfolding auth is_public
  auth-IsPublic inner hs s h =
      pair_if (authorized lib srv rq) (inner hs rq s) (unauthorized lib srv hs, s) h
        (record { public = refl })

  preflight-IsPublic :
      (hs : Headers) (origin : String) → IsPublic lib rq (preflight lib srv hs origin rq)
  unfolding preflight is_public
  preflight-IsPublic hs origin =
      IsPublic-if (denied_preflight lib srv rq)
        (write_err _ 403 "forbidden" "cors preflight is not allowed") _
        (λ h. record { public = refl }) (λ h. record { public = refl })

  cors-IsPublic :
      (inner : Handler) (hs : Headers) (s : App)
      → ((h : Headers) → IsPublic lib rq (inner h rq s).0)
      → IsPublic lib rq (cors lib srv inner hs rq s).0
  unfolding cors preflight is_public
  cors-IsPublic inner hs s h =
      let vary = add_header "Vary" "Origin" hs in
      let origin = rq.header "Origin" in
      pair_if (cors_free lib srv rq) (inner hs rq s) _ (h hs) (
        pair_if (not (contains origin srv.cors_allowed_origins))
          (write_err vary 403 "forbidden" "origin is not allowed", s) _ (record { public = refl })
          (pair_if (is_cors_preflight lib srv rq) (preflight lib srv vary origin rq, s) _
            (preflight-IsPublic vary origin)
            (h (set_header "Access-Control-Allow-Origin" origin vary))))

  -- An error response tells its client nothing of the server's state: whatever failed, its body is
  -- one of thirteen fixed documents, the refusal of a query that quotes the request's own sort or
  -- status, or a health document whose errors are `canceled`, `timeout` or `unavailable`. A 404
  -- always says "not found". The mux redirects, or answers with a 404 or a 405, where it knows no
  -- handler.
  pub serve-IsPublic :
      (s : App)
      → MuxRefuses (lib.mux rq.method rq.path)
      → IsPublic lib rq (serve lib srv env rq s).0
  unfolding serve json_mux_errors mux
  serve-IsPublic s h = cors-IsPublic _ [] s (λ hs.
      auth-IsPublic _ hs s
        (replace_error-IsPublic _ (on_route-IsAnswer (lib.mux rq.method rq.path) hs s h)))
