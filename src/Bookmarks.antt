-- ===== src/Bookmarks.antt =====
-- internal/bookmarks/bookmarks.go: the URLs of a bookmark file. The JSON decoder and the HTML
-- tokenizer are the operations of `Markup`.
use Prim.Native.String.{String, ◌++◌ as append}
use Prim.Native.Char.{Char, code}
use reading_lite_next.Prelude.{Bool, false, ◌||◌, List, [], ◌∷◌, ◌++◌, ◌==◌, str_eq, if◌then◌else◌}
use reading_lite_next.Prelude.Text.{trim_space}
use reading_lite_next.Prelude.Parse.{contains_text}
use reading_lite_next.Errors.{
  Error, plain, message, wrapped, sentinel, multiple_json_values, Result, ok, err,
}

-- a start tag or a self-closing tag, with its attributes in order
pub record Tag : Type 0 where
  pub name : String
  pub attributes : List (String × String)

-- the JSON object: its `html`, and the `url` of each of its bookmarks
pub record BookmarkObject : Type 0 where
  pub html : String
  pub urls : List String

-- `first_array` and `first_object` are a `Decode` without unknown fields: the value and what follows
-- it, or the decoder's error. `ended`: whether the next `Decode` finds the end of the input.
pub record Markup : Type 0 where
  pub to_lower : String → String
  pub tags : String → List Tag
  pub first_array : String → Result (List String × String)
  pub first_object : String → Result (BookmarkObject × String)
  pub ended : String → Bool

abbrev pub invalid_json : Error
invalid_json = plain "invalid bookmark JSON"

abbrev pub invalid_shape : Error
invalid_shape = plain "invalid bookmark shape"

unfoldable pub first_href : List (String × String) → List String
first_href [] = []
first_href ((key, value) ∷ rest) =
    let later = first_href rest in if str_eq key "href" then value ∷ [] else later

unfoldable pub tag_hrefs : List Tag → List String
unfolding first_href
tag_hrefs [] = []
tag_hrefs (t ∷ ts) =
    let rest = tag_hrefs ts in if str_eq t.name "a" then first_href t.attributes ++ rest else rest

-- the character that decides the format
abbrev starts : Char → String → Bool
starts c String.[] = false
starts c (String.◌∷◌ d s) = code d == code c

module _ (m : Markup) where
  unfoldable pub hrefs : String → List String
  unfolding tag_hrefs
  hrefs raw = tag_hrefs (m.tags raw)

  unfoldable pub decode_one : {A : Type 0} → Result (A × String) → Result A
  decode_one (err e) = err (wrapped "" invalid_json (append ": " (message e)))
  decode_one (ok (value, rest)) =
      if m.ended rest then ok value else err (sentinel multiple_json_values)

  abbrev object_urls : BookmarkObject → List String
  object_urls o = o.urls ++ (if str_eq o.html "" then [] else hrefs o.html)

  abbrev of_object : Result BookmarkObject → Result (List String)
  of_object (ok o) = ok (object_urls o)
  of_object (err e) = err e

  unfoldable pub is_html : String → String → Bool
  is_html text content_type =
      contains_text "text/html" (m.to_lower content_type) || starts "<" (trim_space text)

  unfoldable pub parse : String → String → Result (List String)
  unfolding is_html
  parse text content_type =
      if str_eq (trim_space text) ""
      then ok []
      else if is_html text content_type
      then ok (hrefs text)
      else if starts "[" (trim_space text)
      then decode_one (m.first_array text)
      else if starts "{" (trim_space text)
      then of_object (decode_one (m.first_object text))
      else err invalid_shape
