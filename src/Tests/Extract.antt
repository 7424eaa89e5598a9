-- ===== src/Tests/Extract.antt =====
-- The ladder of extractors, on a page whose only text is that of a script.
use Prim.Native.String.{String}
use reading_lite_next.Prelude.{◌≤◌, ◌≡◌, refl, ◌⊎◌, false, true, none, some, [], ◌∷◌}
use reading_lite_next.Prelude.Text.{trim_space}
use reading_lite_next.Prelude.Parse.{words, join_words}
use reading_lite_next.Errors.{ok, err, permanent, is, background}
use reading_lite_next.Pipeline.{Resource, Article}
use reading_lite_next.Extract.{
  Pages, Node, node, child, last, text, element, other, word_count, sufficient, body_text,
  document_title, document_lang, readability_tier, no_content, extract,
}
use reading_lite_next.Extract.Salvage.{page_words, IsExtracted, extract-outcome}

abbrev script_page : Node
script_page = node other "" [] (
    child
      (node element "html" (("lang", "en") ∷ []) (
        child
          (node element "head" []
            (child (node element "title" [] (child (node text " A page " [] last) last)) last))
          (child
            (node element "body" []
              (child (node element "script" [] (child (node text "var  x" [] last) last)) last))
            last)))
      last)

abbrev pages : Pages String
pages = record {
  check = λ body. false;
  parse_url = λ url. some url;
  no_url = "";
  from_reader = λ body url. none;
  convert_string = λ html. none;
  parse = λ body. some script_page;
  convert_node = λ doc. some "";
}

abbrev fetched : Resource
fetched = record {
  body = "<html>";
  content_type = "text/html";
  final_url = "https://example.com/";
  status = 200;
}

abbrev salvaged : Article
salvaged = record {
  title = "A page";
  author = "";
  site = "";
  lang = "en";
  markdown = "var x";
  mode = "raw_only";
  word_count = 2;
}

extract_test : extract pages background fetched ≡ ok salvaged
unfolding extract readability_tier sufficient word_count words trim_space body_text join_words
    document_title document_lang
extract_test = refl

extract-outcome_example :
    ((a : Article) × (extract pages background fetched ≡ ok a)
      × (1 ≤ a.word_count)
      × IsExtracted pages fetched a)
    ⊎ (extract pages background fetched ≡ err no_content)
      × (is no_content permanent ≡ true)
      × (page_words pages fetched ≡ [])
extract-outcome_example = extract-outcome pages fetched
