-- ===== src/Prelude/Parse.antt =====
-- Go's `strings.TrimPrefix`, `strings.Split`, `strings.Fields` and `strconv.Atoi`.
use Prim.Native.Nat.{ℕ, zero, suc, ◌+◌, ◌-◌, ◌*◌, ◌^◌}
use Prim.Native.String.{String, ◌++◌ as append}
use Prim.Native.Char.{Char, code}
use mathlib.Core.Option.{Option, none, some}
use mathlib.Core.List.{List, [], ◌∷◌}
use mathlib.Core.Bool.{Bool, ◌&&◌, ◌||◌}
use reading_lite_next.Prelude.Int.{ℤ, pos, negsuc}
use reading_lite_next.Prelude.Text.{is_space}
use reading_lite_next.Prelude.Tests.{◌==◌, ltb, leb, is_some, if◌then◌else◌}

-- `strings.HasPrefix` and `strings.TrimPrefix` at once: what follows the prefix
unfoldable pub cut_prefix : String → String → Option String
cut_prefix String.[] s = some s
cut_prefix (String.◌∷◌ c p) String.[] = none
cut_prefix (String.◌∷◌ c p) (String.◌∷◌ d s) =
    let rest = cut_prefix p s in if code c == code d then rest else none

-- `strings.Contains`, of the second text
unfoldable pub contains_text : String → String → Bool
unfolding cut_prefix
contains_text t String.[] = is_some (cut_prefix t "")
contains_text t (String.◌∷◌ c s) = is_some (cut_prefix t (String.◌∷◌ c s)) || contains_text t s

abbrev at_head : Char → List String → List String
at_head c [] = String.◌∷◌ c "" ∷ []
at_head c (w ∷ ws) = String.◌∷◌ c w ∷ ws

-- `strings.Split` at one character
unfoldable pub split_on : Char → String → List String
split_on sep String.[] = "" ∷ []
split_on sep (String.◌∷◌ c s) =
    let rest = split_on sep s in if code c == code sep then "" ∷ rest else at_head c rest

unfoldable pub is_digit : Char → Bool
is_digit c = leb 48 (code c) && leb (code c) 57

-- the number of a text of digits, after the digits that were read
digits_value : ℕ → String → Option ℕ
unfolding is_digit
digits_value n String.[] = some n
digits_value n (String.◌∷◌ c s) =
    let rest = digits_value (n * 10 + (code c - 48)) s in if is_digit c then rest else none

number_text : String → Option ℕ
unfolding digits_value
number_text String.[] = none
number_text (String.◌∷◌ c s) = digits_value 0 (String.◌∷◌ c s)

in_range : Option ℕ → Option ℤ
in_range none = none
in_range (some n) = if ltb n (2 ^ 63) then some (pos n) else none

negated : Option ℕ → Option ℤ
negated none = none
negated (some zero) = some (pos 0)
negated (some (suc n)) = if ltb n (2 ^ 63) then some (negsuc n) else none

-- the rest after a leading character
abbrev after_char : Char → String → Option String
after_char c String.[] = none
after_char c (String.◌∷◌ d s) = if code d == code c then some s else none

unsigned_or_plus : Option String → String → Option ℤ
unfolding number_text in_range
unsigned_or_plus (some s) whole = in_range (number_text s)
unsigned_or_plus none whole = in_range (number_text whole)

signed : Option String → String → Option ℤ
unfolding unsigned_or_plus number_text negated
signed (some s) whole = negated (number_text s)
signed none whole = unsigned_or_plus (after_char "+" whole) whole

-- `strconv.Atoi`, with `none` for its errors
unfoldable pub atoi : String → Option ℤ
unfolding signed
atoi s = signed (after_char "-" s) s

-- a word that ended, in front of the words after it
abbrev pub close_word : String → List String → List String
close_word String.[] ws = ws
close_word (String.◌∷◌ c w) ws = String.◌∷◌ c w ∷ ws

-- the word at the start of the text, and the words after it
unfoldable pub words_from : String → String × List String
words_from String.[] = ("", [])
words_from (String.◌∷◌ c s) =
    let (w, ws) = words_from s in if is_space c then ("", close_word w ws) else (String.◌∷◌ c w, ws)

-- `strings.Fields`
unfoldable pub words : String → List String
unfolding words_from
words s = let (w, ws) = words_from s in close_word w ws

-- `strings.Join` with a space
unfoldable pub join_words : List String → String
join_words [] = ""
join_words (w ∷ []) = w
join_words (w ∷ v ∷ ws) = append w (append " " (join_words (v ∷ ws)))
