-- ===== src/Tests/Pages.antt =====
-- The paging of `Search` and the ranking of `Query`, at concrete inputs. Two vectors are compared
-- over whole numbers.
use mathlib.Core.List.{Perm}
use reading_lite_next.Prelude.{ℕ, suc, ◌≡◌, refl, true, none, some, List, [], ◌∷◌, map, length, pos}
use reading_lite_next.Prelude.Sort.{IsSorted}
use reading_lite_next.Dict.{Dict}
use reading_lite_next.Reading.{Status}
use reading_lite_next.Store.Memory.{new_memory}
use reading_lite_next.Store.Calls.{run}
use reading_lite_next.Store.Index.{run-IsIndexed}
use reading_lite_next.Store.Terms.{Unicode, tokenize}
use reading_lite_next.Store.Search.{Query, no_cursor, newest, sorted_matches, matching, reading_of}
use reading_lite_next.Store.Search.Pages.{walk, order_of, walk-sorted_matches}
use reading_lite_next.Vector.{Entry, dim}
use reading_lite_next.Tests.Data.{history, filled}

abbrev pub ascii : Unicode
ascii = record { to_lower = λ s. s; is_word = λ c. true }

abbrev pub two_pages : Query
two_pages = record {
  q = "";
  tags = [];
  status = Status.unset;
  sort = newest;
  cursor = no_cursor;
  limit = pos 1;
}

walk-sorted_matches_example :
    let m = run history new_memory in
    let ms = sorted_matches ascii two_pages m in
    (walk ascii (suc (length ms)) two_pages m ≡ map (reading_of ascii) ms)
    × IsSorted (order_of ascii two_pages) ms
    × Perm ms (matching ascii two_pages (tokenize ascii "") m.by_id.entries)
walk-sorted_matches_example =
    walk-sorted_matches ascii (run history new_memory) (run-IsIndexed history) two_pages refl

abbrev two_vectors : Dict (Entry ℕ)
two_vectors = record {
  entries =
      ("n1", record { vec = filled 1 dim; generation = some 5 })
      ∷ ("n2", record { vec = filled 2 dim; generation = none })
      ∷ [];
}
