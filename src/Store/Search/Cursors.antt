-- ===== src/Store/Search/Cursors.antt =====
-- The cursors of internal/store/memory.go: `isAfterCursor` against the sort's comparison.
use Prim.Native.Nat.{Ordering}
use Prim.Native.String.{compare as str_compare}
use reading_lite_next.Prelude.{
  ◌≡◌, refl, ◌∙◌, ap, Bool, true, false, List, [], ◌∷◌, ◌++◌, arith, ltb, ◌==◌, if◌then◌else◌, All,
  All-middle,
}
use reading_lite_next.Prelude.Order.{is_lt, str_compare-IsComparison}
use reading_lite_next.Prelude.Sort.{IsSorted}
use reading_lite_next.Reading.{Reading}
use reading_lite_next.Store.Terms.{Unicode}
use reading_lite_next.Store.Search.{
  SortMode, newest, oldest, title, SearchMatch, after_in, is_after_cursor, cursor_at, compare_sort,
  compare_matches, from_cursor,
}
use reading_lite_next.Store.Search.Compare.{compare_matches-IsComparison}

-- without search terms every score is 0
abbrev pub IsScored : Bool → SearchMatch → Type 0
IsScored true m = Unit
IsScored false m = m.score ≡ 0

module _ (u : Unicode) where
  after_in-newest :
      (sort : SortMode) (r : Reading) (x : SearchMatch)
      → (if r.created_at == x.reading.created_at
          then is_lt (str_compare r.id x.reading.id)
          else ltb r.created_at x.reading.created_at)
        ≡ is_lt (compare_sort u newest x.reading r)
  after_in-newest sort r x = ground arith

  after_in_lem :
      (sort : SortMode) (r : Reading) (x : SearchMatch)
      → after_in u sort r (cursor_at u x) ≡ is_lt (compare_sort u sort x.reading r)
  unfolding after_in
  after_in_lem title r x = ground (
    arith,
    str_compare-IsComparison.flips (u.to_lower x.reading.title) (u.to_lower r.title),
    str_compare-IsComparison.flips x.reading.id r.id,
  )
  after_in_lem oldest r x = ground (arith, str_compare-IsComparison.flips x.reading.id r.id)
  after_in_lem newest r x = after_in-newest newest r x
  after_in_lem SortMode.unset r x = after_in-newest newest r x

  -- The test against a row's cursor is the comparison with the row.
  is_after_cursor_lem :
      (sort : SortMode) (rank : Bool) (m x : SearchMatch)
      → IsScored rank m
      → IsScored rank x
      → is_after_cursor u m sort (cursor_at u x) ≡ is_lt (compare_matches u sort rank x m)
  unfolding is_after_cursor
  is_after_cursor_lem sort true m x hm hx = ground (arith, after_in_lem sort m.reading x)
  is_after_cursor_lem sort false m x hm hx = ground (arith, after_in_lem sort m.reading x)

  module _ (sort : SortMode) (rank : Bool) where
    not_after_self : (x : SearchMatch) → is_lt (compare_matches u sort rank x x) ≡ false
    not_after_self x = ground (arith, (compare_matches-IsComparison u sort rank).flips x x)

    from_next :
        (x : SearchMatch) (l : List SearchMatch)
        → IsScored rank x
        → All (IsScored rank) l
        → All (λ y. compare_matches u sort rank x y ≡ Ordering.lt) l
        → from_cursor u sort (cursor_at u x) l ≡ l
    unfolding from_cursor
    from_next x [] hx hl below = refl
    from_next x (y ∷ l) hx (hy, hl) (first, below) =
        let e : is_after_cursor u y sort (cursor_at u x) ≡ true =
          is_after_cursor_lem sort rank y x hy hx ∙ ap is_lt first in
        rw e refl

    -- From the cursor of a row on, a sorted list continues with the next row.
    pub from_cursor-append :
        (before : List SearchMatch) (x : SearchMatch) (after : List SearchMatch)
        → All (IsScored rank) (before ++ (x ∷ after))
        → IsSorted (compare_matches u sort rank) (before ++ (x ∷ after))
        → from_cursor u sort (cursor_at u x) (before ++ (x ∷ after)) ≡ after
    unfolding from_cursor
    from_cursor-append [] x after (hx, h) (below, s) =
        let e : is_after_cursor u x sort (cursor_at u x) ≡ false =
          is_after_cursor_lem sort rank x x hx hx ∙ not_after_self x in
        rw e (from_next x after hx h below)
    from_cursor-append (a ∷ before) x after (ha, h) (below, s) =
        let hx = All-middle (IsScored rank) before x after h in
        let above =
          All-middle (λ y. compare_matches u sort rank a y ≡ Ordering.lt) before x after below in
        let swapped : is_lt (compare_matches u sort rank x a) ≡ false =
          ground (arith, (compare_matches-IsComparison u sort rank).flips a x, above) in
        let e : is_after_cursor u a sort (cursor_at u x) ≡ false =
          is_after_cursor_lem sort rank a x ha hx ∙ swapped in
        rw e (from_cursor-append before x after h s)
