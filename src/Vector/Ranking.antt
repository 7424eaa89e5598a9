-- ===== src/Vector/Ranking.antt =====
-- The ranking of `Query` in internal/vector/vector.go.
use Prim.Native.Nat.{Ordering}
use Prim.Native.String.{compare as str_compare}
use reading_lite_next.Prelude.{
  String, Bool, ◌≡◌, ◌≢◌, not, List, [], ◌∷◌, str_eq, All, ◌⊎◌, map, ◌||◌, if◌then◌else◌,
}
use reading_lite_next.Dict.{Dict}
use reading_lite_next.Vector.{Entry}
use reading_lite_next.Vector.Similar.{Floats, Match, cosine}

-- the elements that pass a test
kept : {A : Type 0} → (A → Bool) → List A → List A
kept p [] = []
kept p (x ∷ xs) = let rest = kept p xs in if p x then x ∷ rest else rest

module _ (fl : Floats) where
  module _ (vec : List fl.F32) (exclude : String) where
    abbrev pub IsWanted : Match fl → Type 0
    IsWanted m = (exclude ≡ "") ⊎ (m.id ≢ exclude)

    -- higher score or, at the same score, lower id
    abbrev pub IsAbove : Match fl → Match fl → Type 0
    IsAbove a b =
        (fl.compare b.score a.score ≡ Ordering.lt)
        ⊎ ((fl.compare b.score a.score ≡ Ordering.eq) × (str_compare a.id b.id ≡ Ordering.lt))

    abbrev pub IsRanked : List (Match fl) → Type 0
    IsRanked [] = Unit
    IsRanked (m ∷ ms) = All (IsAbove m) ms × IsRanked ms

    -- every entry with its score, less the excluded one
    unfoldable pub wanted_matches : List (String × Entry fl.F32) → List (Match fl)
    unfolding kept
    wanted_matches rows =
        map (λ row. record { id = row.0; score = cosine fl vec row.1.vec })
          (kept (λ row. str_eq exclude "" || not (str_eq row.0 exclude)) rows)
