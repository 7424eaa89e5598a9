-- ===== src/Http/Routes.antt =====
-- internal/httpapi/server.go: `Routes`.
use reading_lite_next.Prelude.{true, false, [], ◌++◌}
use reading_lite_next.Http.{
  Request, Response, Library, Server, Env, App, Route, healthz as health_route,
  ingest as ingest_route, import_markdown as markdown_route, import_bookmarks as bookmarks_route,
  list_readings as list_route, get_reading as reading_route, get_content as content_route,
  get_raw as raw_route, reprocess as reprocess_route, unmatched, bytes,
}
use reading_lite_next.Http.Middleware.{Handler, auth, cors, json_mux_errors}
use reading_lite_next.Http.Handlers.{
  healthz, ingest, import_markdown, import_bookmarks, list_readings, get_reading, stream_blob,
  reprocess,
}

module _ (lib : Library) (srv : Server) (env : Env) where
  unfoldable pub on_route : Route → Handler
  on_route health_route = healthz lib srv env
  on_route ingest_route = ingest lib srv env
  on_route markdown_route = import_markdown lib srv env
  on_route bookmarks_route = import_bookmarks lib srv env
  on_route list_route = list_readings lib srv env
  on_route (reading_route id) = get_reading lib srv env id
  on_route (content_route id) = stream_blob lib srv env true id
  on_route (raw_route id) = stream_blob lib srv env false id
  on_route (reprocess_route id) = reprocess lib srv env id
  on_route (unmatched status headers text) =
      λ hs rq s. (record { status = status; headers = hs ++ headers; body = bytes text }, s)

  unfoldable pub mux : Handler
  unfolding on_route
  mux hs rq s = on_route (lib.mux rq.method rq.path) hs rq s

  -- `Routes`, without the request log
  unfoldable pub serve : Request → App → Response × App
  unfolding mux
  serve rq s = cors lib srv (auth lib srv (json_mux_errors mux)) [] rq s
