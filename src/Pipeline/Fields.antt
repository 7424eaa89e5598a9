-- ===== src/Pipeline/Fields.antt =====
-- internal/pipeline/pipeline.go: the values that a run computes, with `html.EscapeString`.
use Prim.Native.String.{◌++◌}
use reading_lite_next.Prelude.{
  ℕ, zero, suc, ◌/◌, String, false, not, ◌&&◌, Option, none, some, List, [], ltb, leb, ◌==◌, str_eq,
  if◌then◌else◌, ℤ, pos, negsuc, length,
}
use reading_lite_next.Prelude.Text.{trim_space, decimal, decimal_ℤ}
use reading_lite_next.Dict
use reading_lite_next.Dict.{Dict}
use reading_lite_next.Errors.{plain, sentinel, wrapped, rate_limited_by, permanent, Result, ok, err}
use reading_lite_next.Reading.{
  Time, Duration, Json, Reading, SourceKind, web, youtube, reddit, markdown, time_sub, unix_nano,
}
use reading_lite_next.Dispatch.{backoff_cap}
use reading_lite_next.Store.Types.{ContentFields}
use reading_lite_next.Vector.Similar.{Floats}
use reading_lite_next.Pipeline.{
  Article, Summary, SummaryInput, Email, Config, Diagnostics, Content, SimilarItem, Pipeline,
}

abbrev pub source_text : SourceKind → String
source_text SourceKind.unset = ""
source_text web = "web"
source_text youtube = "youtube"
source_text reddit = "reddit"
source_text markdown = "markdown"

-- `diagnostics{Source: source}`
abbrev pub new_diagnostics : String → Diagnostics
new_diagnostics source = record {
  source = source;
  extraction_mode = "";
  similar_count = 0;
  reused = false;
  notify_error = "";
  timings_ms = Dict.empty;
}

first_timing : Option ℕ → String → Diagnostics → Diagnostics
first_timing none key d = record d { timings_ms = Dict.put key 0 d.timings_ms }
first_timing (some _) key d = d

unfoldable pub ensure_timing : String → Diagnostics → Diagnostics
unfolding first_timing
ensure_timing key d = first_timing (Dict.get key d.timings_ms) key d

-- `elapsed.Milliseconds()`, of 0 if it is negative
elapsed_ms : Duration → ℕ
elapsed_ms (pos ns) = ns / 1000000
elapsed_ms (negsuc ns) = 0

-- the function that `start` returns
unfoldable pub stop_timing : String → Time → Time → Diagnostics → Diagnostics
unfolding elapsed_ms
stop_timing key started now d =
    let ready = ensure_timing key d in
    record ready { timings_ms = Dict.put key (elapsed_ms (time_sub now started)) ready.timings_ms }

run_key : Option Time → String
run_key none = "run"
run_key (some t) = "run-" ++ decimal_ℤ (unix_nano t)

unfoldable pub raw_key : Reading → String
unfolding run_key
raw_key r = "readings/" ++ (r.id ++ ("/" ++ (run_key r.started_at ++ "/raw")))

unfoldable pub content_key : Reading → String
unfolding run_key
content_key r = "readings/" ++ (r.id ++ ("/" ++ (run_key r.started_at ++ "/content.md")))

unfoldable pub classify_fetch_status : ℕ → Result (Unit {0})
classify_fetch_status status =
    if leb 200 status && ltb status 300
    then ok tt
    else if status == 429
    then err (
        rate_limited_by (pos backoff_cap)
          (plain ("fetch rate limited (status " ++ (decimal status ++ ")"))))
    else if leb 400 status && ltb status 500
    then err (wrapped "" (sentinel permanent) (": fetch returned status " ++ decimal status))
    else err (plain ("fetch returned status " ++ decimal status))

unfoldable pub top_k : Config → ℤ
top_k c = elim c.top_k [ pos zero ↦ pos 5 | pos (suc n) ↦ pos (suc n) | negsuc n ↦ pos 5 ]

unfoldable pub summary_title : Summary → Reading → String
summary_title sum r =
    if not (str_eq sum.title "")
    then sum.title
    else if not (str_eq r.title "")
    then r.title
    else r.url

-- the replacement of one character in `html.EscapeString`
abbrev pub escape_char : String → String
escape_char c =
    if str_eq c "&"
    then "&amp;"
    else if str_eq c "'"
    then "&#39;"
    else if str_eq c "<"
    then "&lt;"
    else if str_eq c ">"
    then "&gt;"
    else if str_eq c "\""
    then "&#34;"
    else c

unfoldable pub escape_string : String → String
escape_string String.[] = ""
escape_string (String.◌∷◌ c s) = escape_char (String.◌∷◌ c "") ++ escape_string s

unfoldable pub email_of : Config → Summary → Reading → Email
email_of c sum r = record {
  from = c.notify_from;
  to = c.notify_to;
  subject = "Reading ready: " ++ summary_title sum r;
  html = "<p>" ++ (escape_string sum.summary ++ "</p>");
}

module _ {fl : Floats} where
  unfoldable pub embed_text : Content fl → String
  embed_text c = trim_space (c.title ++ ("\n\n" ++ c.markdown))

  counted : Result (List (SimilarItem fl)) → ℕ
  counted (ok items) = length items
  counted (err _) = 0

  unfoldable pub count_items : Pipeline fl → Json → ℕ
  unfolding counted
  count_items p none = 0
  count_items p (some raw) = if str_eq raw "" then 0 else counted (p.unmarshal_similar raw)

  -- `contentFields`, at the time that it reads from the clock
  unfoldable pub content_fields :
      Pipeline fl → Reading → Content fl → Diagnostics → Summary → Time → ContentFields
  content_fields p r c diag sum now = record {
    now = now;
    expected_started_at = r.started_at;
    title = if not (str_eq sum.title "") then sum.title else c.title;
    author = c.author;
    site = c.site;
    lang = c.lang;
    word_count = c.word_count;
    extraction_mode = c.mode;
    content_key = c.content_key;
    raw_key = c.raw_key;
    summary = sum.summary;
    summary_json = sum.json;
    similar_json = c.similar_json;
    diagnostics_json = p.marshal_diagnostics diag;
  }

  unfoldable pub summary_input : Reading → Content fl → SummaryInput
  summary_input r c = record {
    title = c.title;
    author = c.author;
    site = c.site;
    url = r.url;
    markdown = c.markdown;
  }

  abbrev pub extracted : Article → String → String → Content fl
  extracted a content_key raw_key = record {
    title = a.title;
    author = a.author;
    site = a.site;
    lang = a.lang;
    word_count = a.word_count;
    mode = a.mode;
    markdown = a.markdown;
    content_key = content_key;
    raw_key = raw_key;
    similar_json = none;
    vec = [];
  }

  -- the content of a markdown import: it has no extraction tier
  abbrev pub imported : Reading → String → Content fl
  imported r body = record {
    title = r.title;
    author = "";
    site = "";
    lang = "";
    word_count = 0;
    mode = "";
    markdown = body;
    content_key = content_key r;
    raw_key = r.raw_key;
    similar_json = none;
    vec = [];
  }

  -- the content that an earlier run stored
  abbrev pub checkpointed : Reading → String → Content fl
  checkpointed r body = record {
    title = r.title;
    author = r.author;
    site = r.site;
    lang = r.lang;
    word_count = r.word_count;
    mode = r.extraction_mode;
    markdown = body;
    content_key = r.content_key;
    raw_key = r.raw_key;
    similar_json = r.similar_json;
    vec = [];
  }
