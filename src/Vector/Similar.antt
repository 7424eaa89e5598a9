-- ===== src/Vector/Similar.antt =====
-- internal/vector/vector.go: `Query`. The floating-point operations are the parameter `Floats`.
use Prim.Native.Nat.{Ordering}
use Prim.Native.String.{compare as str_compare}
use reading_lite_next.Prelude.{
  ℕ, String, Bool, not, ◌&&◌, ◌||◌, none, some, List, [], ◌∷◌, ◌==◌, str_eq, if◌then◌else◌, length,
  take, ℤ, pos, negsuc,
}
use reading_lite_next.Prelude.Order.{IsComparison, by, reversed, lexicographic}
use reading_lite_next.Prelude.Sort.{sort_func}
use reading_lite_next.Dict.{Dict}
use reading_lite_next.Errors.{Context, dimension, sentinel, Result, ok, err}
use reading_lite_next.Vector.{dim, Entry}

-- `float32` and `float64`. `cmp.Compare` orders all values, with NaN below the others.
pub record Floats : Type 1 where
  pub F32 : Type 0
  pub F64 : Type 0
  pub widen : F32 → F64
  pub nought : F64
  pub add : F64 → F64 → F64
  pub mul : F64 → F64 → F64
  pub div : F64 → F64 → F64
  pub sqrt : F64 → F64
  pub is_nought : F64 → Bool
  pub compare : F64 → F64 → Ordering
  pub ordered : IsComparison compare

module _ (fl : Floats) where
  pub record Match : Type 0 where
    pub id : String
    pub score : fl.F64

  -- the loop of `cosine` with its three sums
  cosine_sums : List fl.F32 → List fl.F32 → fl.F64 → fl.F64 → fl.F64 → fl.F64 × fl.F64 × fl.F64
  cosine_sums (a ∷ as') (b ∷ bs) dot na nb =
      let x = fl.widen a in
      let y = fl.widen b in
      cosine_sums as' bs (fl.add dot (fl.mul x y)) (fl.add na (fl.mul x x)) (fl.add nb (fl.mul y y))
  cosine_sums _ _ dot na nb = (dot, na, nb)

  unfoldable pub cosine : List fl.F32 → List fl.F32 → fl.F64
  unfolding cosine_sums
  cosine a b =
      let (dot, na, nb) = cosine_sums a b fl.nought fl.nought fl.nought in
      if fl.is_nought na || fl.is_nought nb
      then fl.nought
      else fl.div dot (fl.mul (fl.sqrt na) (fl.sqrt nb))

  -- the matches of the loop over the index
  unfoldable pub candidates : List fl.F32 → String → List (String × Entry fl.F32) → List Match
  candidates vec exclude [] = []
  candidates vec exclude ((id, e) ∷ rows) =
      let rest = candidates vec exclude rows in
      if not (str_eq exclude "") && str_eq id exclude
      then rest
      else record { id = id; score = cosine vec e.vec } ∷ rest

  abbrev pub compare_matches : Match → Match → Ordering
  compare_matches =
      lexicographic (reversed (by fl.compare (λ m. m.score))) (by str_compare (λ m. m.id))

  abbrev pub top_of : ℤ → ℕ
  top_of (pos n) = n
  top_of (negsuc n) = 0

  unfoldable pub ranked : List fl.F32 → String → Dict (Entry fl.F32) → List Match
  ranked vec exclude m = sort_func compare_matches (candidates vec exclude m.entries)

  unfoldable pub query :
      Context → List fl.F32 → ℤ → String → Dict (Entry fl.F32) → Result (List Match)
  query (some s) vec top_k exclude m = err (sentinel s)
  query none vec top_k exclude m =
      if not (length vec == dim)
      then err (sentinel dimension)
      else ok (take (top_of top_k) (ranked vec exclude m))
