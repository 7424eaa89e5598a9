-- ===== src/Store/Search/Compare.antt =====
-- The comparisons by which internal/store/memory.go sorts, and the rows that `Search` selects.
use Prim.Native.Nat.{Ordering, compare}
use Prim.Native.String.{compare as str_compare}
use text.Mathlib.TextEquality.{path_by_compare}
use reading_lite_next.Prelude.{
  String, ◌≡◌, ◌≢◌, sym, ◌∙◌, Bool, true, false, none, some, List, [], ◌∷◌, arith, str_eq, eq_iff,
  Bool-cases, inl, inr, All, All-imp,
}
use reading_lite_next.Prelude.Order.{
  IsComparison, by, reversed, or_next, by-IsComparison, reversed-IsComparison,
  lexicographic-IsComparison, compare-IsComparison, str_compare-IsComparison,
}
use reading_lite_next.Prelude.Sort.{AreApart}
use reading_lite_next.Dict
use reading_lite_next.Dict.{Dict, lookup}
use reading_lite_next.Dict.Entries.{Distinct, IsDistinct}
use reading_lite_next.Reading.{Reading}
use reading_lite_next.Store.Memory.{Memory}
use reading_lite_next.Store.Index.{IsIndexed}
use reading_lite_next.Store.Terms.{Unicode, score_reading}
use reading_lite_next.Store.Search.{
  SortMode, newest, oldest, title, SearchMatch, Query, is_match, matching, created, id_order,
  compare_sort, compare_rank, compare_matches,
}

created-IsComparison : (u : Unicode) → IsComparison (created u)
created-IsComparison u = by-IsComparison compare (λ r. r.created_at) compare-IsComparison

id_order-IsComparison : (u : Unicode) → IsComparison (id_order u)
id_order-IsComparison u = by-IsComparison str_compare (λ r. r.id) str_compare-IsComparison

module _ (u : Unicode) where
  newest-IsComparison : IsComparison (compare_sort u newest)
  newest-IsComparison =
      lexicographic-IsComparison (reversed (created u)) (reversed (id_order u))
        (reversed-IsComparison (created u) (created-IsComparison u))
        (reversed-IsComparison (id_order u) (id_order-IsComparison u))

  compare_sort-IsComparison : (sort : SortMode) → IsComparison (compare_sort u sort)
  compare_sort-IsComparison oldest =
      lexicographic-IsComparison (created u) (id_order u) (created-IsComparison u)
        (id_order-IsComparison u)
  compare_sort-IsComparison title =
      lexicographic-IsComparison (by str_compare (λ r. u.to_lower r.title)) (id_order u)
        (by-IsComparison str_compare (λ r. u.to_lower r.title) str_compare-IsComparison)
        (id_order-IsComparison u)
  compare_sort-IsComparison SortMode.unset = newest-IsComparison
  compare_sort-IsComparison newest = newest-IsComparison

  pub compare_matches-IsComparison :
      (sort : SortMode) (rank : Bool) → IsComparison (compare_matches u sort rank)
  compare_matches-IsComparison sort false =
      by-IsComparison (compare_sort u sort) (λ m. m.reading) (compare_sort-IsComparison sort)
  compare_matches-IsComparison sort true =
      lexicographic-IsComparison (compare_rank u) (by (compare_sort u sort) (λ m. m.reading))
        (reversed-IsComparison (by compare (λ m. m.score))
          (by-IsComparison compare (λ m. m.score) compare-IsComparison))
        (by-IsComparison (compare_sort u sort) (λ m. m.reading) (compare_sort-IsComparison sort))

  or_next-eq : (o p : Ordering) → or_next o p ≡ Ordering.eq → p ≡ Ordering.eq
  or_next-eq o p h = ground (arith, h)

  -- Two rows that compare as equal have one id.
  compare_sort-id :
      (sort : SortMode) (a b : Reading) → compare_sort u sort a b ≡ Ordering.eq → a.id ≡ b.id
  compare_sort-id oldest a b h = path_by_compare a.id b.id (or_next-eq _ _ h)
  compare_sort-id title a b h = path_by_compare a.id b.id (or_next-eq _ _ h)
  compare_sort-id SortMode.unset a b h = sym (path_by_compare b.id a.id (or_next-eq _ _ h))
  compare_sort-id newest a b h = sym (path_by_compare b.id a.id (or_next-eq _ _ h))

  compare_matches-id :
      (sort : SortMode) (rank : Bool) (a b : SearchMatch)
      → compare_matches u sort rank a b ≡ Ordering.eq
      → a.reading.id ≡ b.reading.id
  compare_matches-id sort false a b h = compare_sort-id sort a.reading b.reading h
  compare_matches-id sort true a b h = compare_sort-id sort a.reading b.reading (or_next-eq _ _ h)

-- every entry's row has the entry's key as its id
abbrev pub KeyedRows : List (String × Reading) → Type 0
KeyedRows = All (λ (k, r). r.id ≡ k)

keyed_rows :
    (l : List (String × Reading))
    → Distinct l
    → ((k : String) (r : Reading) → lookup k l ≡ some r → r.id ≡ k)
    → KeyedRows l
unfolding lookup
keyed_rows [] d h = tt
keyed_rows ((k, r) ∷ l) (fresh, d) h = (
  h k r (ground (arith, eq_iff k k)),
  keyed_rows l d (λ j x at. h j x (ground (arith, at, fresh, eq_iff k j))),
)

module _ (u : Unicode) (q : Query) (terms : List String) where
  matching-fresh :
      (k : String) (l : List (String × Reading))
      → lookup k l ≡ none
      → KeyedRows l
      → All (λ m. k ≢ m.reading.id) (matching u q terms l)
  unfolding lookup matching
  matching-fresh k [] fresh keyed = tt
  matching-fresh k ((j, r) ∷ l) fresh (own, keyed) =
      let other : str_eq j k ≡ false = ground arith in
      let rest = matching-fresh k l (ground arith) keyed in
      elim (Bool-cases (is_match u q terms r)) [
        | inl e ↦ rw e ((λ same. absurd (ground (arith, same, own, other, eq_iff j k))), rest)
        | inr e ↦ rw e rest
      ]

  matching-AreApart :
      (sort : SortMode) (rank : Bool) (l : List (String × Reading))
      → Distinct l
      → KeyedRows l
      → AreApart (compare_matches u sort rank) (matching u q terms l)
  unfolding matching
  matching-AreApart sort rank [] d keyed = tt
  matching-AreApart sort rank ((k, r) ∷ l) (fresh, d) (own, keyed) =
      let rest = matching-AreApart sort rank l d keyed in
      let m : SearchMatch = record { reading = r; score = score_reading u r terms } in
      elim (Bool-cases (is_match u q terms r)) [
        | inl e ↦ rw e (
          All-imp (λ n. k ≢ n.reading.id) (λ n. compare_matches u sort rank m n ≢ Ordering.eq)
              (λ n other same. other (sym own ∙ compare_matches-id u sort rank m n same))
              (matching u q terms l) (matching-fresh k l fresh keyed),
          rest,
        )
        | inr e ↦ rw e rest
      ]

  -- No two rows of an indexed store compare as equal.
  pub stored-AreApart :
      (sort : SortMode) (rank : Bool) (m : Memory)
      → IsIndexed m
      → AreApart (compare_matches u sort rank) (matching u q terms m.by_id.entries)
  unfolding IsDistinct Dict.get
  stored-AreApart sort rank m v =
      matching-AreApart sort rank m.by_id.entries v.rows_distinct
        (keyed_rows m.by_id.entries v.rows_distinct v.row_id)
