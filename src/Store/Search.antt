-- ===== src/Store/Search.antt =====
-- internal/store/memory.go: `Search`, with the query types of internal/store/store.go. A cursor's
-- rank holds a score, which a float64 represents exactly. A sort mode that the code does not name
-- sorts as `newest`.
pub mod Compare
pub mod Cursors
pub mod Pages
use Prim.Native.Nat.{Ordering, compare}
use Prim.Native.Char.{Char}
use Prim.Native.String.{◌++◌, compare as str_compare, count}
use text.Mathlib.Text.{starts_with}
use reading_lite_next.Prelude.{
  ℕ, zero, suc, ◌+◌, ◌-◌, String, Bool, true, false, not, ◌&&◌, ◌||◌, Option, none, some, List, [],
  ◌∷◌, ltb, ◌==◌, str_eq, if◌then◌else◌, get_or, length, take, any, map, contains, ℤ, pos, negsuc,
}
use reading_lite_next.Prelude.Order.{or_next, is_lt, is_gt, by, reversed, lexicographic}
use reading_lite_next.Prelude.Sort.{sort_func}
use reading_lite_next.Dict.{Dict}
use reading_lite_next.Errors.{Context, ok}
use reading_lite_next.Reading.{Time, Reading, Status, same_status}
use reading_lite_next.Store.Terms.{Unicode, tokenize, score_reading}
use reading_lite_next.Store.Memory.{Memory, Op, live}

pub data SortMode : Type 0 where
  unset newest oldest title : SortMode

pub record Cursor : Type 0 where
  pub created_at : Time
  pub id : String
  pub title : String
  pub rank : ℕ
  pub valid : Bool

abbrev pub no_cursor : Cursor
no_cursor = record { created_at = 0; id = ""; title = ""; rank = 0; valid = false }

pub record Query : Type 0 where
  pub q : String
  pub tags : List String
  pub status : Status
  pub sort : SortMode
  pub cursor : Cursor
  pub limit : ℤ

pub record Page : Type 0 where
  pub readings : List Reading
  pub total : ℕ
  pub next_cursor : Cursor

pub record SearchMatch : Type 0 where
  pub reading : Reading
  pub score : ℕ

module _ (u : Unicode) where
  abbrev pub is_nonempty {ℓ} : {A : Type ℓ} → List A → Bool
  is_nonempty [] = false
  is_nonempty (_ ∷ _) = true

  -- `hasAllTags`
  unfoldable pub has_all_tags : List String → List String → Bool
  has_all_tags have want = not (any (λ t. not (contains t have)) want)

  -- the row is not skipped
  unfoldable pub is_match : Query → List String → Reading → Bool
  unfolding score_reading has_all_tags
  is_match q terms r =
      (same_status q.status Status.unset || same_status r.status q.status)
      && has_all_tags (get_or r.tags []) q.tags
      && not (is_nonempty terms && (score_reading u r terms == 0))

  unfoldable pub matching : Query → List String → List (String × Reading) → List SearchMatch
  matching q terms [] = []
  matching q terms ((_, r) ∷ rows) =
      let rest = matching q terms rows in
      if is_match q terms r
      then record { reading = r; score = score_reading u r terms } ∷ rest
      else rest

  abbrev pub created : Reading → Reading → Ordering
  created = by compare (λ r. r.created_at)

  abbrev pub id_order : Reading → Reading → Ordering
  id_order = by str_compare (λ r. r.id)

  -- `compareCreatedDesc`, `compareCreatedAsc` and `compareTitleAsc`
  abbrev pub compare_created_desc : Reading → Reading → Ordering
  compare_created_desc = lexicographic (reversed created) (reversed id_order)

  abbrev pub compare_created_asc : Reading → Reading → Ordering
  compare_created_asc = lexicographic created id_order

  abbrev pub compare_title_asc : Reading → Reading → Ordering
  compare_title_asc = lexicographic (by str_compare (λ r. u.to_lower r.title)) id_order

  abbrev pub compare_sort : SortMode → Reading → Reading → Ordering
  compare_sort oldest = compare_created_asc
  compare_sort title = compare_title_asc
  compare_sort SortMode.unset = compare_created_desc
  compare_sort newest = compare_created_desc

  -- the comparison of `sortMatches`
  abbrev pub compare_rank : SearchMatch → SearchMatch → Ordering
  compare_rank = reversed (by compare (λ m. m.score))

  abbrev pub compare_matches : SortMode → Bool → SearchMatch → SearchMatch → Ordering
  compare_matches sort true = lexicographic compare_rank (by (compare_sort sort) (λ m. m.reading))
  compare_matches sort false = by (compare_sort sort) (λ m. m.reading)

  -- the sort's part of `isAfterCursor`
  after_in : SortMode → Reading → Cursor → Bool
  after_in title r cursor =
      let n = str_compare (u.to_lower r.title) (u.to_lower cursor.title) in
      is_gt (or_next n (str_compare r.id cursor.id))
  after_in oldest r cursor =
      if r.created_at == cursor.created_at
      then is_gt (str_compare r.id cursor.id)
      else ltb cursor.created_at r.created_at
  after_in _ r cursor =
      if r.created_at == cursor.created_at
      then is_lt (str_compare r.id cursor.id)
      else ltb r.created_at cursor.created_at

  unfoldable pub is_after_cursor : SearchMatch → SortMode → Cursor → Bool
  unfolding after_in
  is_after_cursor m sort cursor =
      if (ltb 0 cursor.rank || ltb 0 m.score) && not (m.score == cursor.rank)
      then ltb m.score cursor.rank
      else after_in sort m.reading cursor

  unfoldable pub from_cursor : SortMode → Cursor → List SearchMatch → List SearchMatch
  from_cursor sort cursor [] = []
  from_cursor sort cursor (m ∷ ms) =
      let rest = from_cursor sort cursor ms in
      if is_after_cursor m sort cursor then m ∷ ms else rest

  unfoldable pub apply_cursor : Query → List SearchMatch → List SearchMatch
  unfolding from_cursor
  apply_cursor q ms = if q.cursor.valid then from_cursor q.sort q.cursor ms else ms

  -- `limit := q.Limit; if limit <= 0 { limit = defaultLimit }`
  abbrev pub limit_of : ℤ → ℕ
  limit_of (pos zero) = 50
  limit_of (pos (suc n)) = suc n
  limit_of (negsuc n) = 50

  abbrev pub cursor_at : SearchMatch → Cursor
  cursor_at m = record {
    created_at = m.reading.created_at;
    id = m.reading.id;
    title = m.reading.title;
    rank = m.score;
    valid = true;
  }

  abbrev pub cursor_after : List SearchMatch → Cursor
  cursor_after [] = no_cursor
  cursor_after (m ∷ []) = cursor_at m
  cursor_after (_ ∷ m ∷ ms) = cursor_after (m ∷ ms)

  abbrev pub reading_of : SearchMatch → Reading
  reading_of m = m.reading

  -- the page of the matches from the cursor on
  unfoldable pub page_of : ℕ → ℕ → List SearchMatch → Page
  page_of limit total ms =
      let more = ltb limit (length ms) in
      let shown = if more then take limit ms else ms in
      record {
        readings = map reading_of shown;
        total = total;
        next_cursor = if more then cursor_after shown else no_cursor;
      }

  unfoldable pub sorted_matches : Query → Memory → List SearchMatch
  sorted_matches q m =
      let terms = tokenize u q.q in
      sort_func (compare_matches q.sort (is_nonempty terms)) (matching q terms m.by_id.entries)

  unfoldable pub search : Context → Query → Op Page
  search ctx q = live ctx λ m.
      let ms = sorted_matches q m in
      (ok (page_of (limit_of q.limit) (length ms) (apply_cursor q ms)), m)
