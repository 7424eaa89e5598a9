-- ===== src/Store/Terms.antt =====
-- internal/store/memory.go: `tokenize` and `scoreReading`, the terms of a search and their count in a
-- reading.
use Prim.Native.Char.{Char}
use Prim.Native.String.{◌++◌, count}
use text.Mathlib.Text.{starts_with}
use reading_lite_next.Prelude.{
  ℕ, zero, suc, ◌+◌, ◌-◌, String, Bool, List, [], ◌∷◌, str_eq, if◌then◌else◌, get_or,
}
use reading_lite_next.Reading.{Reading}

-- The Unicode tables of Go: `strings.ToLower`, and letters and digits.
pub record Unicode : Type 0 where
  pub to_lower : String → String
  pub is_word : Char → Bool

-- `strings.Join`
join : String → List String → String
join sep [] = ""
join sep (s ∷ []) = s
join sep (s ∷ t ∷ rest) = s ++ (sep ++ join sep (t ∷ rest))

-- `strings.Count` of a text that is not empty: the occurrences that do not overlap. `skip` counts
-- the characters left of the occurrence that was found last.
occurrences : String → ℕ → String → ℕ
occurrences t skip String.[] = 0
occurrences t (suc skip) (String.◌∷◌ c s) = occurrences t skip s
occurrences t zero (String.◌∷◌ c s) =
    let found = starts_with (String.◌∷◌ c s) t in
    let rest = occurrences t (if found then count t - 1 else 0) s in
    if found then suc rest else rest

module _ (u : Unicode) where
  abbrev pub close_word : String → List String → List String
  close_word w ws = if str_eq w "" then ws else w ∷ ws

  -- the word that is open at a position, and the words after it
  fields_from : String → String × List String
  fields_from String.[] = ("", [])
  fields_from (String.◌∷◌ c s) =
      let (w, ws) = fields_from s in
      if u.is_word c then (String.◌∷◌ c w, ws) else ("", close_word w ws)

  unfoldable pub tokenize : String → List String
  unfolding fields_from
  tokenize q = let (w, ws) = fields_from (u.to_lower q) in close_word w ws

  haystack : Reading → String
  unfolding join
  haystack r =
      u.to_lower (join " " (r.title ∷ r.author ∷ r.summary ∷ join " " (get_or r.tags []) ∷ []))

  sum_counts : String → List String → ℕ
  unfolding occurrences
  sum_counts text [] = 0
  sum_counts text (term ∷ terms) = occurrences term 0 text + sum_counts text terms

  unfoldable pub score_reading : Reading → List String → ℕ
  unfolding haystack sum_counts
  score_reading r terms = sum_counts (haystack r) terms
