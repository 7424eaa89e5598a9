-- ===== src/Http/Pages.antt =====
-- internal/httpapi/server.go: a client that reads the pages of a list through `next_cursor`.
use Prim.Native.String.{String}
use mathlib.Core.List.{Perm, map-append}
use reading_lite_next.Prelude.{
  ℕ, zero, suc, ◌≡◌, ◌≢◌, refl, sym, ap, ◌∙◌, Bool, true, false, some, none, Option, List, [], ◌∷◌,
  ◌++◌, map, length, arith, eq_iff, str_eq, if◌then◌else◌,
}
use reading_lite_next.Errors.{Context, Result, ok, err}
use reading_lite_next.Reading.{Reading, Status}
use reading_lite_next.Store.Index.{IsIndexed}
use reading_lite_next.Prelude.Sort.{IsSorted}
use reading_lite_next.Store.Terms.{tokenize}
use reading_lite_next.Store.Search.{
  matching, Query, Cursor, Page, SortMode, search, sorted_matches, reading_of, page_of, limit_of,
  apply_cursor,
}
use reading_lite_next.Store.Search.Pages.{walk, order_of, walk-sorted_matches}
use reading_lite_next.Http.{
  Request, Response, Library, Server, Env, App, ReadingDto, Payload, list_document, write_json,
  list_readings as list_route,
}
use reading_lite_next.Http.Middleware.{
  auth, authorized, cors, cors_free, json_mux_errors, replace_error,
}
use reading_lite_next.Http.Query.{
  first, query_from_request, encode_cursor, decode_cursor, checked, at_cursor, parse_sort,
  parse_status, plain_query,
}
use reading_lite_next.Http.Handlers.{
  list_readings, reading_dto_from, list_response, queried, page_answer,
}
use reading_lite_next.Http.Routes.{serve, mux, on_route}

-- the same request, from a cursor on
abbrev pub from : String → Request → Request
from cursor rq = record rq {
  params = λ name. if str_eq name "cursor" then cursor ∷ [] else rq.params name;
}

-- What a client takes from an answer: the readings, and those of the pages that `next` leads to.
unfoldable pub read_page : (String → List ReadingDto) → Payload → List ReadingDto
read_page later (list_document l) =
    if str_eq l.next_cursor "" then l.readings else l.readings ++ later l.next_cursor
read_page later _ = []

module _ (lib : Library) (srv : Server) (env : Env) where
  -- A client that follows the cursors, for a number of pages at most.
  unfoldable pub read_pages : ℕ → Request → App → List ReadingDto
  read_pages zero rq s = []
  read_pages (suc pages) rq s =
      read_page (λ c. read_pages pages (from c rq) s) (serve lib srv env rq s).0.body

  -- What the client needs of the JSON and base64 encodings: a valid cursor is read back, and is not
  -- written as the empty text.
  abbrev pub RoundTrips : Type 0
  RoundTrips =
      (c : Cursor)
      → c.valid ≡ true
      → (lib.decode_base64 (lib.encode_base64 (lib.marshal_cursor c)) ≡ some (lib.marshal_cursor c))
        × (lib.unmarshal_cursor (lib.marshal_cursor c) ≡ some c)
        × (lib.encode_base64 (lib.marshal_cursor c) ≢ "")

  module _ (codec : RoundTrips) where
    decode_cursor-encode_cursor :
        (c : Cursor) → c.valid ≡ true → decode_cursor lib (encode_cursor lib c) ≡ ok c
    unfolding decode_cursor encode_cursor
    decode_cursor-encode_cursor c valid =
        let (text, value, written) = codec c valid in rw (text, value, valid) refl

    moved : Cursor → Result Query → Result Query
    moved c (ok q) = ok (record q { cursor = c })
    moved c (err e) = err e

    moved-start :
        (start q : Query) (c : Cursor) (b : Bool) (r : Result Cursor)
        → (if b then ok start else at_cursor lib start r) ≡ ok q
        → ok (record start { cursor = c }) ≡ ok (record q { cursor = c })
    unfolding moved
    moved-start start q c true r h = ap (moved c) h
    moved-start start q c false (ok d) h = ap (moved c) h
    moved-start start q c false (err e) h = absurd (ground (arith, h))

    checked-from :
        (rq : Request) (q : Query) (c : Cursor) (sort : Option SortMode) (status : Option Status)
        → checked lib rq sort status ≡ ok q
        → c.valid ≡ true
        → checked lib (from (encode_cursor lib c) rq) sort status ≡ ok (record q { cursor = c })
    unfolding checked encode_cursor
    checked-from rq q c none status h valid = absurd (ground (arith, h))
    checked-from rq q c (some sort) none h valid = absurd (ground (arith, h))
    checked-from rq q c (some sort) (some status) h valid =
        let start = plain_query lib rq sort status in
        let raw = first (rq.params "cursor") in
        let whole = moved-start start q c (str_eq raw "") (decode_cursor lib raw) h in
        let (_, _, written) = codec c valid in
        let fresh : str_eq (encode_cursor lib c) "" ≡ false =
          ground (arith, written, eq_iff (encode_cursor lib c) "") in
        rw (fresh, decode_cursor-encode_cursor c valid) whole

    query-from :
        (rq : Request) (q : Query) (c : Cursor)
        → query_from_request lib rq ≡ ok q
        → c.valid ≡ true
        → query_from_request lib (from (encode_cursor lib c) rq) ≡ ok (record q { cursor = c })
    unfolding query_from_request
    query-from rq q c h valid =
        checked-from rq q c (parse_sort (first (rq.params "sort")))
          (parse_status (first (rq.params "status"))) h valid

    -- the page of a query
    abbrev page_at : Query → App → Page
    page_at q s =
        let ms = sorted_matches lib.unicode q s.ops.world.store in
        page_of lib.unicode (limit_of lib.unicode q.limit) (length ms)
          (apply_cursor lib.unicode q ms)

    page_response : Query → App → Response
    page_response q s = write_json [] 200 (list_document (list_response lib srv env (page_at q s)))

    queried-page :
        (ctx : Context) (q : Query) (s : App)
        → ctx ≡ none
        → queried lib srv env [] ctx (ok q) s ≡ page_response q s
    unfolding queried page_answer search page_response
    queried-page none q s live = refl
    queried-page (some e) q s live = absurd (ground (arith, live))

    list-page :
        (rq : Request) (q : Query) (s : App)
        → rq.ctx ≡ none
        → query_from_request lib rq ≡ ok q
        → list_readings lib srv env [] rq s ≡ (page_response q s, s)
    unfolding list_readings
    list-page rq q s live h =
        ap (λ x. (queried lib srv env [] rq.ctx x s, s)) h
        ∙ ap (λ r. (r, s)) (queried-page rq.ctx q s live)

    routed :
        (rq : Request) (s : App)
        → cors_free lib srv rq ≡ true
        → authorized lib srv rq ≡ true
        → lib.mux rq.method rq.path ≡ list_route
        → serve lib srv env rq s ≡ (
          replace_error (list_readings lib srv env [] rq s).0,
          (list_readings lib srv env [] rq s).1,
        )
    unfolding serve cors auth json_mux_errors mux on_route
    routed rq s free known at = rw (free, known, at) refl

    served :
        (rq : Request) (q : Query) (s : App)
        → rq.ctx ≡ none
        → cors_free lib srv rq ≡ true
        → authorized lib srv rq ≡ true
        → lib.mux rq.method rq.path ≡ list_route
        → query_from_request lib rq ≡ ok q
        → (serve lib srv env rq s).0.body ≡ list_document (list_response lib srv env (page_at q s))
    unfolding replace_error page_response
    served rq q s live free known at h =
        ap (λ x. x.0.body) (routed rq s free known at)
        ∙ ap (λ x. (replace_error x.0).body) (list-page rq q s live h)

    chosen :
        (b : Bool) (text : String) (readings rest : List Reading) (later : String → List ReadingDto)
        → (b ≡ true → (str_eq text "" ≡ false) × (later text ≡ map reading_dto_from rest))
        → (if str_eq (if b then text else "") ""
            then map reading_dto_from readings
            else map reading_dto_from readings ++ later (if b then text else ""))
          ≡ map reading_dto_from (if b then readings ++ rest else readings)
    chosen true text readings rest later h =
        let (fresh, same) = h refl in
        rw (fresh, same) (sym (map-append reading_dto_from readings rest))
    chosen false text readings rest later h = refl

    read_page-list :
        (page : Page) (later : String → List ReadingDto) (rest : List Reading)
        → (page.next_cursor.valid ≡ true
            → later (encode_cursor lib page.next_cursor) ≡ map reading_dto_from rest)
        → read_page later (list_document (list_response lib srv env page))
          ≡ map reading_dto_from
              (if page.next_cursor.valid then page.readings ++ rest else page.readings)
    unfolding read_page encode_cursor
    read_page-list page later rest ih =
        let c = page.next_cursor in
        chosen c.valid (encode_cursor lib c) page.readings rest later (λ more.
          let (_, _, written) = codec c more in
          (ground (arith, written, eq_iff (encode_cursor lib c) ""), ih more))

    read_pages-walk :
        (pages : ℕ) (rq : Request) (q : Query) (s : App)
        → rq.ctx ≡ none
        → cors_free lib srv rq ≡ true
        → authorized lib srv rq ≡ true
        → lib.mux rq.method rq.path ≡ list_route
        → query_from_request lib rq ≡ ok q
        → read_pages pages rq s ≡ map reading_dto_from (walk lib.unicode pages q s.ops.world.store)
    unfolding read_pages walk search cors_free authorized
    read_pages-walk zero rq q s live free known at h = refl
    read_pages-walk (suc pages) rq q s live free known at h =
        ap (read_page _) (served rq q s live free known at h)
        ∙ read_page-list (page_at q s) _ _ (λ valid.
          read_pages-walk pages (from (encode_cursor lib (page_at q s).next_cursor) rq)
            (record q { cursor = (page_at q s).next_cursor }) s live free known at
            (query-from rq q (page_at q s).next_cursor h valid))

    -- A client with a valid token and no `Origin` header, whose context stays live, that lists the
    -- readings and follows `next_cursor` until there is none, with any limit, gets every reading that matches its query exactly once, in the order of
    -- its sort: the documents of the sorted matches, which are a permutation of the matches. The
    -- store is indexed and does not change meanwhile, and cursors survive their encoding.
    pub read_pages-matches :
        (rq : Request) (q : Query) (s : App)
        → rq.ctx ≡ none
        → cors_free lib srv rq ≡ true
        → authorized lib srv rq ≡ true
        → lib.mux rq.method rq.path ≡ list_route
        → query_from_request lib rq ≡ ok q
        → q.cursor.valid ≡ false
        → IsIndexed s.ops.world.store
        → let ms = sorted_matches lib.unicode q s.ops.world.store in
          (read_pages (suc (length ms)) rq s
            ≡ map reading_dto_from (map (reading_of lib.unicode) ms))
          × Perm ms
              (matching lib.unicode q (tokenize lib.unicode q.q) s.ops.world.store.by_id.entries)
          × IsSorted (order_of lib.unicode q) ms
    read_pages-matches rq q s live free known at h start v =
        let m = s.ops.world.store in
        let (whole, sorted, perm) = walk-sorted_matches lib.unicode m v q start in
        (
          read_pages-walk (suc (length (sorted_matches lib.unicode q m))) rq q s live free known at
                h
              ∙ ap (map reading_dto_from) whole,
          perm,
          sorted,
        )
