-- ===== src/Store/Search/Pages.antt =====
-- `Search` of internal/store/memory.go page by page, as a client follows the cursors.
use Prim.Native.Nat.{Ordering}
use mathlib.Core.List.{Perm, append_assoc}
use reading_lite_next.Prelude.{
  ℕ, zero, suc, ◌<◌, String, ◌≡◌, refl, sym, ap, ◌∙◌, true, false, List, [], ◌∷◌, ◌++◌, map, arith,
  ltb, if◌then◌else◌, length, take, drop, length-drop, All, Bool-cases, inl, inr, ℤ, pos, negsuc,
}
use reading_lite_next.Prelude.Sort.{
  IsSorted, sort_func, sort_func-perm, sort_func-IsSorted, All-sort_func,
}
use reading_lite_next.Errors.{background, ok, err}
use reading_lite_next.Reading.{Reading}
use reading_lite_next.Store.Memory.{Memory}
use reading_lite_next.Store.Index.{IsIndexed}
use reading_lite_next.Store.Terms.{Unicode, tokenize, score_reading}
use reading_lite_next.Store.Search.{
  Query, Cursor, SearchMatch, search, sorted_matches, apply_cursor, page_of, limit_of, cursor_after,
  cursor_at, reading_of, is_nonempty, is_match, matching, compare_matches,
}
use reading_lite_next.Store.Search.Compare.{compare_matches-IsComparison, stored-AreApart}
use reading_lite_next.Store.Search.Cursors.{IsScored, from_cursor-append}

module _ (u : Unicode) where
  -- A client that follows the cursors, for a number of pages at most.
  unfoldable pub walk : ℕ → Query → Memory → List Reading
  walk zero q m = []
  walk (suc pages) q m = elim (search u background q m).0 [
    | err _ ↦ []
    | ok page ↦
        let rest = walk pages (record q { cursor = page.next_cursor }) m in
        if page.next_cursor.valid then page.readings ++ rest else page.readings
  ]

  -- a full page ends with the row of its cursor
  page_end :
      (n : ℕ) (l : List SearchMatch)
      → suc n < length l
      → (init : List SearchMatch) × (x : SearchMatch) × (take (suc n) l ≡ init ++ (x ∷ []))
        × (l ≡ init ++ (x ∷ drop (suc n) l))
        × (cursor_after u (take (suc n) l) ≡ cursor_at u x)
  page_end n [] h = absurd (omega arith)
  page_end zero (a ∷ l) h = ([], a, refl, refl, refl)
  page_end (suc n) (a ∷ []) h = absurd (omega arith)
  page_end (suc n) (a ∷ b ∷ l) h =
      let (init, x, shown, whole, cursor) = page_end n (b ∷ l) (omega arith) in
      (a ∷ init, x, ap (◌∷◌ a) shown, ap (◌∷◌ a) whole, cursor)

  matching-IsScored :
      (q : Query) (terms : List String) (rows : List (String × Reading))
      → All (IsScored (is_nonempty u terms)) (matching u q terms rows)
  unfolding matching score_reading
  matching-IsScored q terms [] = tt
  matching-IsScored q [] ((k, r) ∷ rows) = elim (Bool-cases (is_match u q [] r)) [
    | inl e ↦ rw e (refl, matching-IsScored q [] rows)
    | inr e ↦ rw e (matching-IsScored q [] rows)
  ]
  matching-IsScored q (t ∷ ts) ((k, r) ∷ rows) = elim (Bool-cases (is_match u q (t ∷ ts) r)) [
    | inl e ↦ rw e (tt, matching-IsScored q (t ∷ ts) rows)
    | inr e ↦ rw e (matching-IsScored q (t ∷ ts) rows)
  ]

  abbrev pub order_of : Query → SearchMatch → SearchMatch → Ordering
  order_of q = compare_matches u q.sort (is_nonempty u (tokenize u q.q))

  sorted_matches-IsSorted :
      (q : Query) (m : Memory) → IsIndexed m → IsSorted (order_of q) (sorted_matches u q m)
  unfolding sorted_matches
  sorted_matches-IsSorted q m v =
      let rank = is_nonempty u (tokenize u q.q) in
      sort_func-IsSorted (order_of q) (compare_matches-IsComparison u q.sort rank)
        (matching u q (tokenize u q.q) m.by_id.entries)
        (stored-AreApart u q (tokenize u q.q) q.sort rank m v)

  sorted_matches-IsScored :
      (q : Query) (m : Memory)
      → All (IsScored (is_nonempty u (tokenize u q.q))) (sorted_matches u q m)
  unfolding sorted_matches
  sorted_matches-IsScored q m =
      All-sort_func (order_of q) _ _ (matching-IsScored q (tokenize u q.q) m.by_id.entries)

  -- the cursor has no part in the matches
  matching-cursor :
      (q : Query) (c : Cursor) (terms : List String) (rows : List (String × Reading))
      → matching u (record q { cursor = c }) terms rows ≡ matching u q terms rows
  unfolding matching is_match
  matching-cursor q c terms [] = refl
  matching-cursor q c terms ((k, r) ∷ rows) = rw (matching-cursor q c terms rows) refl

  sorted_matches-cursor :
      (q : Query) (c : Cursor) (m : Memory)
      → sorted_matches u (record q { cursor = c }) m ≡ sorted_matches u q m
  unfolding sorted_matches
  sorted_matches-cursor q c m =
      ap (sort_func (order_of q)) (matching-cursor q c (tokenize u q.q) m.by_id.entries)

  limit_of_pos : (limit : ℤ) → 0 < limit_of u limit
  limit_of_pos (pos zero) = omega arith
  limit_of_pos (pos (suc n)) = omega arith
  limit_of_pos (negsuc n) = omega arith

  map-take-drop :
      (n : ℕ) (l : List SearchMatch)
      → map (reading_of u) (take n l) ++ map (reading_of u) (drop n l) ≡ map (reading_of u) l
  map-take-drop zero l = refl
  map-take-drop (suc n) [] = refl
  map-take-drop (suc n) (x ∷ l) = ap (◌∷◌ x.reading) (map-take-drop n l)

  module _ (m : Memory) (v : IsIndexed m) where
    -- the cursor of a full page leads to what the page leaves of the sorted matches
    next_position :
        (n : ℕ) (q : Query) (before rest : List SearchMatch)
        → 0 < n
        → n < length rest
        → sorted_matches u q m ≡ before ++ rest
        → (before' : List SearchMatch) × (sorted_matches u q m ≡ before' ++ drop n rest)
          × (apply_cursor u
                (record q { cursor = cursor_after u (take n rest) })
                (sorted_matches u q m)
              ≡ drop n rest)
          × ((cursor_after u (take n rest)).valid ≡ true)
    unfolding apply_cursor
    next_position zero q before rest some_rows more whole = absurd (omega arith)
    next_position (suc n) q before rest some_rows more whole =
        let (init, x, shown, split, cursor) = page_end n rest more in
        let after = drop (suc n) rest in
        let at : sorted_matches u q m ≡ (before ++ init) ++ (x ∷ after) =
          whole ∙ ap (λ l. before ++ l) split ∙ sym (append_assoc before init (x ∷ after)) in
        let scored : All (IsScored (is_nonempty u (tokenize u q.q)))
            ((before ++ init) ++ (x ∷ after)) =
          rw (← at) (sorted_matches-IsScored q m) in
        let sorted : IsSorted (order_of q) ((before ++ init) ++ (x ∷ after)) =
          rw (← at) (sorted_matches-IsSorted q m v) in
        let step =
          from_cursor-append u q.sort (is_nonempty u (tokenize u q.q)) (before ++ init) x after
            scored sorted in
        (
          (before ++ init) ++ (x ∷ []),
          at ∙ sym (append_assoc (before ++ init) (x ∷ []) after),
          rw (cursor, at) step,
          ap (λ c. c.valid) cursor,
        )

    -- from a position of the sorted matches on
    walk_from :
        (pages : ℕ) (q : Query) (before rest : List SearchMatch)
        → sorted_matches u q m ≡ before ++ rest
        → apply_cursor u q (sorted_matches u q m) ≡ rest
        → length rest < pages
        → walk pages q m ≡ map (reading_of u) rest
    unfolding walk search page_of
    walk_from zero q before rest whole at few = absurd (omega arith)
    walk_from (suc pages) q before rest whole at few =
        elim (Bool-cases (ltb (limit_of u q.limit) (length rest))) [
          | inr last ↦ rw (at, last) refl
          | inl more ↦
              let n = limit_of u q.limit in
              let (before', whole', at', valid) =
                next_position n q before rest (limit_of_pos q.limit) (ground arith) whole in
              let full : n < length rest = ground arith in
              let c = cursor_after u (take n rest) in
              let same = sorted_matches-cursor q c m in
              let ih =
                walk_from pages (record q { cursor = c }) before' (drop n rest) (same ∙ whole')
                  (ap (apply_cursor u (record q { cursor = c })) same ∙ at')
                  (omega (arith, length-drop n rest, limit_of_pos q.limit)) in
              rw (at, more, valid)
                (ap (λ l. map (reading_of u) (take n rest) ++ l) ih ∙ map-take-drop n rest)
        ]

    -- In an indexed store, a client that starts without a cursor and follows the cursors, with any
    -- limit, gets every reading that matches the query exactly once, in the order of the sort: the
    -- readings of the sorted matches, which are a permutation of the matches in which each row
    -- comes before the rows after it.
    pub walk-sorted_matches :
        (q : Query)
        → q.cursor.valid ≡ false
        → (walk (suc (length (sorted_matches u q m))) q m
            ≡ map (reading_of u) (sorted_matches u q m))
          × IsSorted (order_of q) (sorted_matches u q m)
          × Perm (sorted_matches u q m) (matching u q (tokenize u q.q) m.by_id.entries)
    unfolding sorted_matches apply_cursor
    walk-sorted_matches q start = (
      walk_from (suc (length (sorted_matches u q m))) q [] (sorted_matches u q m) refl
          (rw start refl) (omega arith),
      sorted_matches-IsSorted q m v,
      sort_func-perm (order_of q) (matching u q (tokenize u q.q) m.by_id.entries),
    )
