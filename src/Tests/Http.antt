-- ===== src/Tests/Http.antt =====
-- The HTTP API, at concrete inputs.
use Prim.Native.String.{String}
use mathlib.Core.List.{Perm}
use reading_lite_next.Prelude.{
  suc, ◌≡◌, refl, true, false, none, some, [], ◌∷◌, map, length, arith, eq_iff, str_eq,
  if◌then◌else◌,
}
use reading_lite_next.Prelude.Sort.{IsSorted}
use reading_lite_next.Prelude.Parse.{cut_prefix, atoi}
use reading_lite_next.Errors.{err, plain}
use reading_lite_next.Bookmarks.{Markup}
use reading_lite_next.Store.Memory.{new_memory}
use reading_lite_next.Store.Calls.{run}
use reading_lite_next.Store.Index.{run-IsIndexed}
use reading_lite_next.Store.Terms.{tokenize}
use reading_lite_next.Store.Search.{sorted_matches, matching, reading_of}
use reading_lite_next.Store.Search.Pages.{order_of}
use reading_lite_next.Dispatcher.{drained}
use reading_lite_next.Http.{Request, Library, Server, Env, App, Route, list_readings, get_reading}
use reading_lite_next.Http.Middleware.{cors_free, authorized}
use reading_lite_next.Http.Query.{
  query_from_request, parse_sort, parse_status, parse_tags, parse_limit,
}
use reading_lite_next.Http.Handlers.{reading_dto_from}
use reading_lite_next.Http.Routes.{serve}
use reading_lite_next.Http.Access.{IsRefusal, serve-refused}
use reading_lite_next.Http.Public.{IsPublic}
use reading_lite_next.Http.Disclosed.{serve-IsPublic}
use reading_lite_next.Http.Pages.{read_pages, read_pages-matches}
use reading_lite_next.Tests.Data.{history, service, ops_of}
use reading_lite_next.Tests.Pages.{ascii, two_pages}
use reading_lite_next.Tests.Codec.{
  marshal, unmarshal, encode, decode, unmarshal-marshal, decode-encode, encode-nonempty,
}

abbrev markup : Markup
markup = record {
  to_lower = λ s. s;
  tags = λ s. [];
  first_array = λ s. err (plain "no array");
  first_object = λ s. err (plain "no object");
  ended = λ s. true;
}

abbrev route_of : String → String → Route
route_of method path = if str_eq path "/api/readings" then list_readings else get_reading "n9"

abbrev library : Library
library = record {
  unicode = ascii;
  markup = markup;
  sha256 = λ s. s;
  first_url = λ s. some (s, "");
  first_markdown = λ s. none;
  ended = λ s. true;
  size = λ s. 0;
  marshal_cursor = marshal;
  unmarshal_cursor = unmarshal;
  encode_base64 = encode;
  decode_base64 = decode;
  quote = λ s. s;
  mux = route_of;
}

abbrev server : Server
server = record {
  service = service;
  token = "secret";
  cors_allowed_origins = [];
  build = record { version = "1"; commit = "c"; date = "d" };
  postgres = none;
  r2 = none;
}

abbrev env : Env
env = record { between = λ s. s; waiting = λ w. w; waited = drained; checking = λ b. b }

abbrev app : App
app = record { ops = ops_of (run history new_memory); degraded = false }

abbrev list_request : Request
list_request = record {
  ctx = none;
  method = "GET";
  path = "/api/readings";
  header = λ name. if str_eq name "Authorization" then "Bearer secret" else "";
  params = λ name. if str_eq name "limit" then "1" ∷ [] else [];
  body = "";
}

abbrev anonymous : Request
anonymous = record list_request { header = λ name. "" }

serve-refused_example :
    ((serve library server env anonymous app).1 ≡ app)
    × ((serve library server env anonymous app).0
        ≡ (serve library server env anonymous (record app { degraded = true })).0)
    × IsRefusal library server env anonymous (serve library server env anonymous app).0
unfolding cut_prefix
serve-refused_example =
    serve-refused library server env anonymous app (record app { degraded = true })
      (ground (arith, eq_iff "/api/readings" "/api/healthz")) (λ t e. absurd (ground (arith, e)))

serve-IsPublic_example :
    IsPublic library
      (record list_request { path = "/api/readings/n9" })
      (serve library server env (record list_request { path = "/api/readings/n9" }) app).0
serve-IsPublic_example =
    serve-IsPublic library server env (record list_request { path = "/api/readings/n9" }) app tt

read_pages-matches_example :
    let ms = sorted_matches ascii two_pages (run history new_memory) in
    (read_pages library server env (suc (length ms)) list_request app
      ≡ map reading_dto_from (map (reading_of ascii) ms))
    × Perm ms (matching ascii two_pages (tokenize ascii "") (run history new_memory).by_id.entries)
    × IsSorted (order_of ascii two_pages) ms
unfolding cors_free authorized cut_prefix query_from_request parse_sort parse_status parse_tags
    parse_limit atoi
read_pages-matches_example =
    read_pages-matches library server env
      (λ c valid.
        (decode-encode (marshal c), unmarshal-marshal c valid, encode-nonempty (marshal c)))
      list_request two_pages app refl refl refl refl refl refl (run-IsIndexed history)
