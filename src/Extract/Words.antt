-- ===== src/Extract/Words.antt =====
-- internal/extract/readability.go: the words that `bodyText` collects.
use Prim.Native.String.{String, ◌++◌ as append}
use Prim.Native.String.compare
use Prim.Native.Char.{Char}
use package.text.Mathlib.TextLemmas.{nil-append, cons-append, append_assoc, append-nil}
use mathlib.Core.List.{append_assoc as list-assoc, append-nil as list-nil}
use reading_lite_next.Prelude.{
  ◌≡◌, ◌≢◌, refl, All, eq_iff, ap, sym, ◌∙◌, ◌⊎◌, inl, inr, Bool, true, false, List, [], ◌∷◌, ◌++◌,
  arith, if◌then◌else◌, length,
}
use reading_lite_next.Prelude.Text.{is_space}
use reading_lite_next.Prelude.Parse.{words, join_words, words_from, close_word}
use reading_lite_next.Extract.{
  Node, Children, node, last, child, text, element, other, texts, child_texts,
}

-- the words of the text nodes below a node, in the order of the document
unfoldable mutual
  pub text_words : Node → List String
  text_words (node text value attrs children) = words value ++ child_words children
  text_words (node element value attrs children) = child_words children
  text_words (node other value attrs children) = child_words children

  child_words : Children → List String
  child_words last = []
  child_words (child n children) = text_words n ++ child_words children

closed-append : (w : String) (ws vs : List String) → close_word w (ws ++ vs) ≡ close_word w ws ++ vs
closed-append String.[] ws vs = refl
closed-append (String.◌∷◌ c w) ws vs = refl

-- a character in front of the words
step : Bool → Char → String × List String → String × List String
step b c p = if b then ("", close_word p.0 p.1) else (String.◌∷◌ c p.0, p.1)

step-append :
    (b : Bool) (c : Char) (w : String) (ws vs : List String)
    → step b c (w, ws ++ vs) ≡ ((step b c (w, ws)).0, (step b c (w, ws)).1 ++ vs)
unfolding step
step-append true c w ws vs = ap (λ l. ("", l)) (closed-append w ws vs)
step-append false c w ws vs = refl

words_from-append :
    (s rest : String)
    → words_from (append s (append " " rest)) ≡ ((words_from s).0, (words_from s).1 ++ words rest)
unfolding words_from words step
words_from-append String.[] rest = ap words_from (
    nil-append (append " " rest)
    ∙ (cons-append " " "" rest ∙ ap (String.◌∷◌ " ") (nil-append rest)))
words_from-append (String.◌∷◌ c s) rest =
    ap words_from (cons-append c s (append " " rest))
    ∙ (ap (step (is_space c) c) (words_from-append s rest)
        ∙ step-append (is_space c) c (words_from s).0 (words_from s).1 (words rest))

words-append : (s rest : String) → words (append s (append " " rest)) ≡ words s ++ words rest
unfolding words
words-append s rest =
    ap (λ p. close_word p.0 p.1) (words_from-append s rest)
    ∙ closed-append (words_from s).0 (words_from s).1 (words rest)

mutual
  unfolding texts text_words

  texts-words :
      (n : Node) (rest : String) → words (append (texts n) rest) ≡ text_words n ++ words rest
  texts-words (node text value attrs children) rest =
      ap words (
        append_assoc value (append " " (child_texts children)) rest
        ∙ ap (append value) (append_assoc " " (child_texts children) rest))
      ∙ (words-append value (append (child_texts children) rest)
          ∙ (ap (λ l. words value ++ l) (children-words children rest)
              ∙ sym (list-assoc (words value) (child_words children) (words rest))))
  texts-words (node element value attrs children) rest = children-words children rest
  texts-words (node other value attrs children) rest = children-words children rest

  children-words :
      (children : Children) (rest : String)
      → words (append (child_texts children) rest) ≡ child_words children ++ words rest
  children-words last rest = ap words (nil-append rest)
  children-words (child n children) rest =
      ap words (append_assoc (texts n) (child_texts children) rest)
      ∙ (texts-words n (append (child_texts children) rest)
          ∙ (ap (λ l. text_words n ++ l) (children-words children rest)
              ∙ sym (list-assoc (text_words n) (child_words children) (words rest))))

pub words-texts : (n : Node) → words (texts n) ≡ text_words n
unfolding words words_from
words-texts n = ap words (sym (append-nil (texts n))) ∙ (texts-words n "" ∙ list-nil (text_words n))

-- it begins with a character that is no space
abbrev StartsWord : String → Type 0
StartsWord String.[] = ⊥
StartsWord (String.◌∷◌ c s) = is_space c ≡ false

abbrev MayStart : String → Type 0
MayStart w = (w ≡ "") ⊎ StartsWord w

cons-ne-nil : (c : Char) (w : String) → String.◌∷◌ c w ≡ "" → ⊥
cons-ne-nil c w e = ground (arith, e, eq_iff (String.◌∷◌ c w) "", compare.cons-nil c w)

closed-StartsWord :
    (w : String) (ws : List String)
    → MayStart w
    → All StartsWord ws
    → All StartsWord (close_word w ws)
closed-StartsWord String.[] ws h all = all
closed-StartsWord (String.◌∷◌ c w) ws (inl e) all = absurd (cons-ne-nil c w e)
closed-StartsWord (String.◌∷◌ c w) ws (inr h) all = (h, all)

step-StartsWord :
    (b : Bool) (c : Char) (p : String × List String)
    → is_space c ≡ b
    → MayStart p.0 × All StartsWord p.1
    → MayStart (step b c p).0 × All StartsWord (step b c p).1
unfolding step
step-StartsWord true c p e h = (inl refl, closed-StartsWord p.0 p.1 h.0 h.1)
step-StartsWord false c p e h = (inr e, h.1)

words_from-StartsWord : (s : String) → MayStart (words_from s).0 × All StartsWord (words_from s).1
unfolding words_from step
words_from-StartsWord String.[] = (inl refl, tt)
words_from-StartsWord (String.◌∷◌ c s) =
    step-StartsWord (is_space c) c (words_from s) refl (words_from-StartsWord s)

words-StartsWord : (s : String) → All StartsWord (words s)
unfolding words
words-StartsWord s =
    closed-StartsWord (words_from s).0 (words_from s).1 (words_from-StartsWord s).0
      (words_from-StartsWord s).1

words-some : (c : Char) (s : String) → is_space c ≡ false → length (words (String.◌∷◌ c s)) ≢ 0
unfolding words words_from
words-some c s h none = ground (arith, h, none)

joined-empty : (ws : List String) → All StartsWord ws → length (words (join_words ws)) ≡ 0 → ws ≡ []
unfolding join_words
joined-empty [] all h = refl
joined-empty (String.[] ∷ ws) all h = absurd all.0
joined-empty ((String.◌∷◌ c w) ∷ []) all h = absurd (words-some c w all.0 h)
joined-empty ((String.◌∷◌ c w) ∷ v ∷ ws) all h = absurd (
    words-some c (append w (append " " (join_words (v ∷ ws)))) all.0
      (ap (λ t. length (words t)) (sym (cons-append c w (append " " (join_words (v ∷ ws))))) ∙ h))

-- A text whose words are put together has no words only if there were none.
pub collapsed-empty : (s : String) → length (words (join_words (words s))) ≡ 0 → words s ≡ []
collapsed-empty s = joined-empty (words s) (words-StartsWord s)
