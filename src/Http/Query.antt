-- ===== src/Http/Query.antt =====
-- internal/httpapi/server.go: the query of a list request, and the cursors of its pages.
use Prim.Native.String.{String, ◌++◌ as append}
use reading_lite_next.Prelude.{
  Option, none, some, List, [], ◌∷◌, ◌++◌, ltb, str_eq, if◌then◌else◌, ℤ, pos, negsuc,
}
use reading_lite_next.Prelude.Text.{trim_space}
use reading_lite_next.Prelude.Parse.{split_on, atoi}
use reading_lite_next.Errors.{Error, plain, Result, ok, err}
use reading_lite_next.Reading.{Status, pending, running, ready, failed}
use reading_lite_next.Store.Search.{SortMode, newest, oldest, title, Query, Cursor, no_cursor}
use reading_lite_next.Http.{Request, Library}

-- `values.Get`
abbrev pub first : List String → String
first [] = ""
first (v ∷ vs) = v

trimmed_tags : List String → List String
trimmed_tags [] = []
trimmed_tags (t ∷ ts) =
    let tag = trim_space t in
    let rest = trimmed_tags ts in if str_eq tag "" then rest else tag ∷ rest

unfoldable pub parse_tags : List String → List String
unfolding trimmed_tags
parse_tags [] = []
parse_tags (v ∷ vs) = trimmed_tags (split_on "," v) ++ parse_tags vs

clamp : Option ℤ → ℤ
clamp none = pos 0
clamp (some (negsuc n)) = pos 0
clamp (some (pos n)) = if ltb 100 n then pos 100 else pos n

unfoldable pub parse_limit : String → ℤ
unfolding clamp
parse_limit raw = clamp (atoi raw)

unfoldable pub parse_sort : String → Option SortMode
parse_sort raw =
    if str_eq raw ""
    then some newest
    else if str_eq raw "newest"
    then some newest
    else if str_eq raw "oldest"
    then some oldest
    else if str_eq raw "title"
    then some title
    else none

unfoldable pub parse_status : String → Option Status
parse_status raw =
    if str_eq raw ""
    then some Status.unset
    else if str_eq raw "pending"
    then some pending
    else if str_eq raw "running"
    then some running
    else if str_eq raw "ready"
    then some ready
    else if str_eq raw "failed"
    then some failed
    else none

module _ (lib : Library) where
  unfoldable pub encode_cursor : Cursor → String
  encode_cursor c = lib.encode_base64 (lib.marshal_cursor c)

  abbrev pub invalid_cursor : Error
  invalid_cursor = plain "invalid cursor"

  unfoldable pub decoded_cursor : Option Cursor → Result Cursor
  decoded_cursor none = err invalid_cursor
  decoded_cursor (some c) = if c.valid then ok c else err invalid_cursor

  unfoldable pub unmarshaled : Option String → Result Cursor
  unfolding decoded_cursor
  unmarshaled none = err invalid_cursor
  unmarshaled (some text) = decoded_cursor (lib.unmarshal_cursor text)

  unfoldable pub decode_cursor : String → Result Cursor
  unfolding unmarshaled
  decode_cursor raw = unmarshaled (lib.decode_base64 raw)

  abbrev pub plain_query : Request → SortMode → Status → Query
  plain_query rq sort status = record {
    q = first (rq.params "q");
    tags = parse_tags (rq.params "tags");
    status = status;
    sort = sort;
    cursor = no_cursor;
    limit = parse_limit (first (rq.params "limit"));
  }

  abbrev pub at_cursor : Query → Result Cursor → Result Query
  at_cursor q (ok c) = ok (record q { cursor = c })
  at_cursor q (err e) = err e

  unfoldable pub checked : Request → Option SortMode → Option Status → Result Query
  checked rq none status =
      err (plain (append "unsupported sort " (lib.quote (first (rq.params "sort")))))
  checked rq (some sort) none =
      err (plain (append "unsupported status " (lib.quote (first (rq.params "status")))))
  checked rq (some sort) (some status) =
      let raw = first (rq.params "cursor") in
      let q = plain_query rq sort status in
      if str_eq raw "" then ok q else at_cursor q (decode_cursor raw)

  unfoldable pub query_from_request : Request → Result Query
  unfolding checked
  query_from_request rq =
      checked rq (parse_sort (first (rq.params "sort"))) (parse_status (first (rq.params "status")))
