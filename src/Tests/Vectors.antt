-- ===== src/Tests/Vectors.antt =====
-- The generation fence of the similarity index, at a concrete input.
use reading_lite_next.Prelude.{ℕ, ◌≡◌, refl, none, some, List, [], ◌∷◌, arith}
use reading_lite_next.Dict
use reading_lite_next.Dict.{Dict}
use reading_lite_next.Vector.{Entry, dim, upsert}
use reading_lite_next.Tests.Data.{filled}
use reading_lite_next.Vector.Fence.{Write, HoldsFrom, upserts, stale_upsert_loses}

abbrev index : Dict (Entry ℕ)
index = record { entries = ("n1", record { vec = filled 1 dim; generation = some 5 }) ∷ [] }

abbrev newer : List (Write ℕ)
newer = record { ctx = none; id = "n1"; vec = filled 2 dim; generation = 6 } ∷ []

index-HoldsFrom : HoldsFrom 5 "n1" index
unfolding Dict.get Dict.lookup
index-HoldsFrom = record {
  entry = record { vec = filled 1 dim; generation = some 5 };
  generation = 5;
  stored = refl;
  dated = refl;
  new_enough = ground arith;
}

stale_upsert_loses_example :
    HoldsFrom 5 "n1" (upserts newer index)
    × ((upsert none "n1" (filled 3 dim) (some 4) (upserts newer index)).1 ≡ upserts newer index)
stale_upsert_loses_example =
    stale_upsert_loses 5 4 "n1" newer index none (filled 3 dim) index-HoldsFrom (ground arith)
