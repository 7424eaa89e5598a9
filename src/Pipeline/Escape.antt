-- ===== src/Pipeline/Escape.antt =====
-- The escaping of the summary in the email of internal/pipeline/pipeline.go.
use Prim.Native.String.{◌++◌}
use text.Mathlib.TextLemmas.{nil-append, cons-append}
use reading_lite_next.Prelude.{
  String, ◌≡◌, refl, ap, ◌∙◌, Bool, false, ◌||◌, str_eq, arith, Bool-cases, inl, inr,
}
use reading_lite_next.Reading.{Reading}
use reading_lite_next.Pipeline.{Config, Summary}
use reading_lite_next.Pipeline.Fields.{escape_char, escape_string, email_of}

-- the characters that begin or end a tag or an attribute
abbrev pub is_markup : String → Bool
is_markup c = str_eq c "<" || str_eq c ">" || str_eq c "\"" || str_eq c "'"

unfoldable pub has_markup : String → Bool
has_markup String.[] = false
has_markup (String.◌∷◌ c s) = let rest = has_markup s in is_markup (String.◌∷◌ c "") || rest

has_markup-++ : (s t : String) → has_markup (s ++ t) ≡ (has_markup s || has_markup t)
unfolding has_markup
has_markup-++ String.[] t = ap has_markup (nil-append t)
has_markup-++ (String.◌∷◌ c s) t =
    ap has_markup (cons-append c s t) ∙ ground (arith, has_markup-++ s t)

has_markup-escape_char :
    (c : String) → has_markup c ≡ is_markup c → has_markup (escape_char c) ≡ false
unfolding has_markup
has_markup-escape_char c h = elim (Bool-cases (str_eq c "&")) [
  | inl is ↦ rw is refl
  | inr no_1 ↦ elim (Bool-cases (str_eq c "'")) [
    | inl is ↦ rw (no_1, is) refl
    | inr no_2 ↦ elim (Bool-cases (str_eq c "<")) [
      | inl is ↦ rw (no_1, no_2, is) refl
      | inr no_3 ↦ elim (Bool-cases (str_eq c ">")) [
        | inl is ↦ rw (no_1, no_2, no_3, is) refl
        | inr no_4 ↦ elim (Bool-cases (str_eq c "\"")) [
          | inl is ↦ rw (no_1, no_2, no_3, no_4, is) refl
          | inr no_5 ↦
              rw (no_1, no_2, no_3, no_4, no_5) (h ∙ ground (arith, no_2, no_3, no_4, no_5))
        ]
      ]
    ]
  ]
]

has_markup-escape_string : (s : String) → has_markup (escape_string s) ≡ false
unfolding has_markup escape_string
has_markup-escape_string String.[] = refl
has_markup-escape_string (String.◌∷◌ c s) = ground (
  arith,
  has_markup-++ (escape_char (String.◌∷◌ c "")) (escape_string s),
  has_markup-escape_char (String.◌∷◌ c "") (ground arith),
  has_markup-escape_string s,
)

-- The body of the email is one paragraph, whose text has no character that begins or ends a tag or
-- an attribute value, whatever the summary is.
pub email_of-has_markup :
    (c : Config) (sum : Summary) (r : Reading)
    → (text : String) × ((email_of c sum r).html ≡ "<p>" ++ (text ++ "</p>"))
      × (has_markup text ≡ false)
unfolding email_of
email_of-has_markup c sum r =
    (escape_string sum.summary, refl, has_markup-escape_string sum.summary)
