-- ===== src/Http/Middleware.antt =====
-- internal/httpapi/server.go: `cors`, `auth` and `jsonMuxErrors`, around a handler.
use Prim.Native.String.{String}
use text.Mathlib.Text.{starts_with}
use reading_lite_next.Prelude.{
  Bool, false, not, ◌&&◌, ◌||◌, Option, none, some, ◌==◌, str_eq, any, contains, if◌then◌else◌,
}
use reading_lite_next.Prelude.Text.{trim_space}
use reading_lite_next.Prelude.Parse.{cut_prefix, split_on}
use reading_lite_next.Http.{
  Request, Response, Headers, Library, Server, App, write_err, set_header, add_header, empty,
}

-- The headers are those that the response writer has before the call.
abbrev pub Handler : Type 0
Handler = Headers → Request → App → Response × App

abbrev pub health_path : String
health_path = "/api/healthz"

module _ (lib : Library) (srv : Server) where
  -- `tokenEqual`
  abbrev pub token_equal : String → String → Bool
  token_equal got want = str_eq (lib.sha256 got) (lib.sha256 want)

  -- the token of an `Authorization` header is accepted
  abbrev bearer : Option String → Bool
  bearer none = false
  bearer (some token) = token_equal token srv.token

  unfoldable pub authorized : Request → Bool
  authorized rq =
      str_eq rq.path health_path
      || not (str_eq srv.token "") && bearer (cut_prefix "Bearer " (rq.header "Authorization"))

  abbrev pub unauthorized : Headers → Response
  unauthorized hs = write_err hs 401 "unauthorized" "missing or invalid bearer token"

  unfoldable pub auth : Handler → Handler
  unfolding authorized
  auth inner hs rq s = if authorized rq then inner hs rq s else (unauthorized hs, s)

  unfoldable pub is_cors_preflight : Request → Bool
  is_cors_preflight rq =
      str_eq rq.method "OPTIONS" && not (str_eq (rq.header "Access-Control-Request-Method") "")

  abbrev allowed_cors_method : String → Bool
  allowed_cors_method method = str_eq method "GET" || str_eq method "POST"

  abbrev allowed_header : String → Bool
  allowed_header header =
      let name = lib.unicode.to_lower (trim_space header) in
      str_eq name "authorization" || str_eq name "content-type"

  unfoldable pub allowed_cors_headers : String → Bool
  allowed_cors_headers raw =
      let trimmed = trim_space raw in
      str_eq trimmed "" || not (any (λ h. not (allowed_header h)) (split_on "," trimmed))

  unfoldable pub denied_preflight : Request → Bool
  unfolding allowed_cors_headers
  denied_preflight rq =
      not (allowed_cors_method (rq.header "Access-Control-Request-Method"))
      || not (allowed_cors_headers (rq.header "Access-Control-Request-Headers"))

  unfoldable pub preflight : Headers → String → Request → Response
  unfolding denied_preflight
  preflight hs origin rq =
      let vary = add_header "Vary" "Access-Control-Request-Method" hs in
      let vary = add_header "Vary" "Access-Control-Request-Headers" vary in
      if denied_preflight rq
      then write_err vary 403 "forbidden" "cors preflight is not allowed"
      else record {
        status = 204;
        headers = set_header "Access-Control-Allow-Headers" "Authorization, Content-Type" (
            set_header "Access-Control-Allow-Methods" "GET, POST, OPTIONS"
              (set_header "Access-Control-Allow-Origin" origin vary));
        body = empty;
      }

  -- no `Origin`, or not a path of the API
  unfoldable pub cors_free : Request → Bool
  cors_free rq = str_eq (rq.header "Origin") "" || not (starts_with rq.path "/api/")

  unfoldable pub cors : Handler → Handler
  unfolding preflight is_cors_preflight cors_free
  cors inner hs rq s =
      let origin = rq.header "Origin" in
      let vary = add_header "Vary" "Origin" hs in
      if cors_free rq
      then inner hs rq s
      else if not (contains origin srv.cors_allowed_origins)
      then (write_err vary 403 "forbidden" "origin is not allowed", s)
      else if is_cors_preflight rq
      then (preflight vary origin rq, s)
      else inner (set_header "Access-Control-Allow-Origin" origin vary) rq s

-- `muxErrorWriter` drops the status and the body of a 404 or a 405; its header map is the writer's.
unfoldable pub replace_error : Response → Response
replace_error r =
    if r.status == 404
    then write_err r.headers 404 "not_found" "not found"
    else if r.status == 405
    then write_err r.headers 405 "method_not_allowed" "method not allowed"
    else r

unfoldable pub json_mux_errors : Handler → Handler
unfolding replace_error
json_mux_errors inner hs rq s = let x = inner hs rq s in (replace_error x.0, x.1)
