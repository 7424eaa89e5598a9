-- ===== src/Extract.antt =====
-- internal/extract/readability.go: the ladder of extractors, and the walks over a parsed page.
-- go-readability, the converter to markdown and the HTML parser are the operations of `Pages`, as
-- is `url.Parse`, where `no_url` is the empty URL.
pub mod Salvage
pub mod Words
use Prim.Native.String.{String, ◌++◌ as append}
use reading_lite_next.Prelude.{
  ℕ, Bool, true, false, ◌&&◌, Option, none, some, List, [], ◌∷◌, length, leb, ◌==◌, str_eq,
  if◌then◌else◌,
}
use reading_lite_next.Prelude.Text.{trim_space}
use reading_lite_next.Prelude.Parse.{words, join_words}
use reading_lite_next.Errors.{Context, Error, sentinel, wrapped, permanent, Result, ok, err}
use reading_lite_next.Pipeline.{Resource, Article}

-- `html.Node`: comments, doctypes and the document itself are `other`
pub data NodeKind : Type 0 where
  text element other : NodeKind

mutual
  pub data Node : Type 0 where
    node : NodeKind → String → List (String × String) → Children → Node

  pub data Children : Type 0 where
    last : Children
    child : Node → Children → Children

-- `readability.Article`
pub record Readable : Type 0 where
  pub title : String
  pub byline : String
  pub site_name : String
  pub language : String
  pub content : String

pub record Pages (U : Type 0) : Type 0 where
  pub check : String → Bool
  pub parse_url : String → Option U
  pub no_url : U
  pub from_reader : String → U → Option Readable
  pub convert_string : String → Option String
  pub parse : String → Option Node
  pub convert_node : Node → Option String

unfoldable pub word_count : String → ℕ
word_count s = length (words s)

unfoldable pub sufficient : String → Bool
sufficient markdown = leb 25 (word_count markdown)

abbrev collapse_spaces : String → String
collapse_spaces s = join_words (words s)

mutual
  -- the text below a node, each piece with a space after it
  pub texts : Node → String
  texts (node text value attrs children) = append value (append " " (child_texts children))
  texts (node element value attrs children) = child_texts children
  texts (node other value attrs children) = child_texts children

  child_texts : Children → String
  child_texts last = ""
  child_texts (child n children) = append (texts n) (child_texts children)

abbrev is_named : String → NodeKind → String → Bool
is_named name element value = str_eq value name
is_named name text value = false
is_named name other value = false

abbrev or_else : Option Node → Option Node → Option Node
or_else (some n) later = some n
or_else none later = later

mutual
  -- the first element of the name, in the order of the document
  pub find_element : String → Node → Option Node
  find_element name (node kind value attrs children) =
      let below = find_children name children in
      if is_named name kind value then some (node kind value attrs children) else below

  find_children : String → Children → Option Node
  find_children name last = none
  find_children name (child n children) =
      or_else (find_element name n) (find_children name children)

or_root : Option Node → Node → Node
or_root none root = root
or_root (some n) root = n

unfoldable pub body_text : Node → String
unfolding texts find_element or_root
body_text doc = collapse_spaces (texts (or_root (find_element "body" doc) doc))

first_data : Option Node → String
first_data none = ""
first_data (some (node kind name attrs last)) = ""
first_data (some (node kind name attrs (child (node k value a c) rest))) = trim_space value

unfoldable pub document_title : Node → String
unfolding find_element first_data
document_title doc = first_data (find_element "title" doc)

-- the last attribute of the name counts
lang_of : String → List (String × String) → String
lang_of found [] = found
lang_of found ((k, v) ∷ attrs) = lang_of (if str_eq k "lang" then trim_space v else found) attrs

node_lang : Option Node → String
unfolding lang_of
node_lang none = ""
node_lang (some (node kind name attrs children)) = lang_of "" attrs

unfoldable pub document_lang : Node → String
unfolding find_element node_lang
document_lang doc = node_lang (find_element "html" doc)

-- `Article{}`
abbrev pub no_article : Article
no_article = record {
  title = "";
  author = "";
  site = "";
  lang = "";
  markdown = "";
  mode = "";
  word_count = 0;
}

-- an article, with the words of its markdown
abbrev pub written : Article → String → Article
written a md = record a { markdown = md; word_count = word_count md }

abbrev pub judged : Article → String → Article × Bool
judged a md = (written a md, sufficient md)

-- the first tier that is sufficient, or else the last one
abbrev pub select_tier : Article → List (Article × Bool) → Article
select_tier fallen [] = fallen
select_tier fallen ((a, is_sufficient) ∷ tiers) =
    let rest = select_tier a tiers in if is_sufficient then a else rest

abbrev pub no_content : Error
no_content = wrapped "" (sentinel permanent) ": extract: no extractable content"

abbrev pub checked_article : Article → Result Article
checked_article a = if a.word_count == 0 then err no_content else ok a

module _ {U : Type 0} (pages : Pages U) where
  abbrev page_url : Option U → U
  page_url none = pages.no_url
  page_url (some u) = u

  abbrev pub readable_article : Option Readable → Option String → Article × Bool
  readable_article none md = (no_article, false)
  readable_article (some art) none = (no_article, false)
  readable_article (some art) (some md) =
      judged
        (record no_article {
          title = trim_space art.title;
          author = trim_space art.byline;
          site = trim_space art.site_name;
          lang = trim_space art.language;
          mode = "readability";
        })
        (trim_space md)

  abbrev content_markdown : Option Readable → Option String
  content_markdown none = none
  content_markdown (some art) = pages.convert_string art.content

  unfoldable pub readability_tier : Resource → Article × Bool
  readability_tier r =
      let art = pages.from_reader r.body (page_url (pages.parse_url r.final_url)) in
      if pages.check r.body
      then readable_article art (content_markdown art)
      else (no_article, false)

  abbrev pub salvaged_dom : Node → Option String → Article × Bool
  salvaged_dom doc none = (no_article, false)
  salvaged_dom doc (some md) =
      judged
        (record no_article {
          title = document_title doc;
          lang = document_lang doc;
          mode = "raw_dom";
        })
        (trim_space md)

  abbrev pub raw_dom : Option Node → Article × Bool
  raw_dom none = (no_article, false)
  raw_dom (some doc) = salvaged_dom doc (pages.convert_node doc)

  abbrev pub raw_only : String → Option Node → Article
  raw_only body none = written (record no_article { mode = "raw_only" }) (collapse_spaces body)
  raw_only body (some doc) =
      written
        (record no_article {
          title = document_title doc;
          lang = document_lang doc;
          mode = "raw_only";
        })
        (body_text doc)

  abbrev pub tiers : Resource → List (Article × Bool)
  tiers r =
      readability_tier r
      ∷ raw_dom (pages.parse r.body)
      ∷ (raw_only r.body (pages.parse r.body), true)
      ∷ []

  -- `Readability.Extract`
  unfoldable pub extract : Context → Resource → Result Article
  extract (some e) r = err (sentinel e)
  extract none r = checked_article (select_tier no_article (tiers r))
