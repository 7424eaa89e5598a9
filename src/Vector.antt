-- ===== src/Vector.antt =====
-- internal/vector/vector.go: the in-memory similarity index, its writes and their generation fence.
-- `F` is the type of a vector's components.
pub mod Fence
pub mod Similar
pub mod Ranking
use reading_lite_next.Prelude.{
  ℕ, String, Bool, true, false, not, Option, none, some, List, ltb, ◌==◌, length, if◌then◌else◌,
}
use reading_lite_next.Dict
use reading_lite_next.Dict.{Dict}
use reading_lite_next.Errors.{Context, dimension, sentinel, Result, ok, err}
use reading_lite_next.Reading.{Time}

abbrev pub dim : ℕ
dim = 1536

pub record Entry {ℓ} (F : Type ℓ) : Type ℓ where
  pub vec : List F
  pub generation : Option Time

later : Option Time → Option Time → Bool
later none new = false
later (some old) none = false
later (some old) (some new) = ltb new old

module _ {ℓ} {F : Type ℓ} where
  -- the stored entry is of a later generation
  unfoldable pub fenced : Option (Entry F) → Option Time → Bool
  unfolding later
  fenced none new = false
  fenced (some existing) new = later existing.generation new

  unfoldable pub upsert :
      Context → String → List F → Option Time → Dict (Entry F) → Result (Unit {0}) × Dict (Entry F)
  unfolding fenced
  upsert (some s) id vec generation m = (err (sentinel s), m)
  upsert none id vec generation m =
      if not (length vec == dim)
      then (err (sentinel dimension), m)
      else if fenced (Dict.get id m) generation
      then (ok tt, m)
      else (ok tt, Dict.put id (record { vec = vec; generation = generation }) m)

  unfoldable pub delete : Context → String → Dict (Entry F) → Result (Unit {0}) × Dict (Entry F)
  delete (some s) id m = (err (sentinel s), m)
  delete none id m = (ok tt, Dict.remove id m)
