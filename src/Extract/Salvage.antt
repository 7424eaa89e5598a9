-- ===== src/Extract/Salvage.antt =====
-- internal/extract/readability.go: what the ladder of extractors returns.
use Prim.Native.String.{String}
use reading_lite_next.Prelude.{
  ◌≤◌, ◌≡◌, refl, ap, sym, ◌∙◌, List, length, ◌⊎◌, inl, inr, Bool, true, false, Option, none, some,
  [], ◌∷◌, arith, if◌then◌else◌, ◌==◌,
}
use reading_lite_next.Prelude.Parse.{words, join_words}
use reading_lite_next.Extract.Words.{text_words, words-texts, collapsed-empty}
use reading_lite_next.Errors.{ok, err, permanent, is}
use reading_lite_next.Pipeline.{Resource, Article}
use reading_lite_next.Extract.{
  texts, find_element, or_root, body_text, Pages, Node, Readable, word_count, sufficient,
  no_article, no_content, raw_only, raw_dom, salvaged_dom, readable_article, readability_tier,
  select_tier, tiers, checked_article, extract,
}

-- a tier's article, where the tier says that it is sufficient
abbrev IsSound : Article × Bool → Type 0
IsSound t = t.1 ≡ true → (t.0.word_count ≡ word_count t.0.markdown) × (25 ≤ t.0.word_count)

module _ {U : Type 0} (pages : Pages U) where
  readable-IsSound :
      (art : Option Readable) (md : Option String) → IsSound (readable_article pages art md)
  unfolding sufficient
  readable-IsSound none md h = absurd (ground (arith, h))
  readable-IsSound (some art) none h = absurd (ground (arith, h))
  readable-IsSound (some art) (some md) h = (refl, ground (arith, h))

  dom-IsSound : (doc : Node) (md : Option String) → IsSound (salvaged_dom pages doc md)
  unfolding sufficient
  dom-IsSound doc none h = absurd (ground (arith, h))
  dom-IsSound doc (some md) h = (refl, ground (arith, h))

  raw_dom-IsSound : (o : Option Node) → IsSound (raw_dom pages o)
  raw_dom-IsSound none h = absurd (ground (arith, h))
  raw_dom-IsSound (some doc) h = dom-IsSound doc (pages.convert_node doc) h

  checked-IsSound :
      (b : Bool) (t : Article × Bool) → IsSound t → IsSound (if b then t else (no_article, false))
  checked-IsSound true t sound h = sound h
  checked-IsSound false t sound h = absurd (ground (arith, h))

  readability_tier-IsSound : (r : Resource) → IsSound (readability_tier pages r)
  unfolding readability_tier
  readability_tier-IsSound r = checked-IsSound (pages.check r.body) _ (readable-IsSound _ _)

  abbrev body_words : String → Option Node → List String
  body_words body none = words body
  body_words body (some doc) = text_words (or_root (find_element "body" doc) doc)

  -- The words of the page: those of the text nodes below its body, those of scripts included, in order.
  unfoldable pub page_words : Resource → List String
  unfolding or_root
  page_words r = body_words r.body (pages.parse r.body)

  last_tier :
      (body : String) (o : Option Node)
      → let a = raw_only pages body o in
        (a.word_count ≡ word_count a.markdown)
        × (a.mode ≡ "raw_only")
        × (a.markdown ≡ join_words (body_words body o))
  unfolding body_text or_root
  last_tier body none = (refl, refl, refl)
  last_tier body (some doc) =
      (refl, refl, ap join_words (words-texts (or_root (find_element "body" doc) doc)))

  no_words :
      (body : String) (o : Option Node)
      → word_count (join_words (body_words body o)) ≡ 0
      → body_words body o ≡ []
  unfolding word_count or_root
  no_words body none h = collapsed-empty body h
  no_words body (some doc) h =
      let same = words-texts (or_root (find_element "body" doc) doc) in
      sym same
      ∙ collapsed-empty (texts (or_root (find_element "body" doc) doc))
          (ap (λ ws. length (words (join_words ws))) same ∙ h)

  -- Either the article has 25 words, or it is the words of the page with single spaces.
  pub record IsExtracted (r : Resource) (a : Article) : Type 0 where
    pub count : a.word_count ≡ word_count a.markdown
    pub source :
        (25 ≤ a.word_count) ⊎ (a.mode ≡ "raw_only") × (a.markdown ≡ join_words (page_words r))

  selected :
      (r : Resource) (t d : Article × Bool)
      → IsSound t
      → IsSound d
      → IsExtracted r
          (select_tier no_article (t ∷ d ∷ (raw_only pages r.body (pages.parse r.body), true) ∷ []))
  unfolding page_words
  selected r (a, true) d sound next = record { count = (sound refl).0; source = inl (sound refl).1 }
  selected r (a, false) (b, true) sound next = record {
    count = (next refl).0;
    source = inl (next refl).1;
  }
  selected r (a, false) (b, false) sound next =
      let base = last_tier r.body (pages.parse r.body) in
      record { count = base.0; source = inr (base.1, base.2) }

  -- what `Extract` makes of the article of the ladder
  judged_article :
      (r : Resource) (a : Article) (b : Bool)
      → (a.word_count == 0) ≡ b
      → IsExtracted r a
      → ((checked_article a ≡ ok a) × (1 ≤ a.word_count))
        ⊎ (checked_article a ≡ err no_content) × (page_words r ≡ [])
  unfolding page_words
  judged_article r a true e extracted = elim extracted.source [
    | inl many ↦ absurd (ground (arith, e, many))
    | inr page ↦
        let zero : word_count a.markdown ≡ 0 = ground (arith, e, extracted.count) in
        inr (rw (e) refl, no_words r.body (pages.parse r.body) (ap word_count (sym page.1) ∙ zero))
  ]
  judged_article r a false e extracted = inl (rw (e) refl, ground (arith, e))

  -- In a live context, `Extract` either returns an article whose count of words is that of its
  -- markdown and at least one, and which has 25 words or is of the last tier and the words of all text
  -- nodes of the page's body, in order and with single spaces between them; or it fails with a
  -- permanent error, and then the page's body has no words.
  pub extract-outcome :
      (r : Resource)
      → ((a : Article) × (extract pages none r ≡ ok a) × (1 ≤ a.word_count) × IsExtracted r a)
        ⊎ (extract pages none r ≡ err no_content)
          × (is no_content permanent ≡ true)
          × (page_words r ≡ [])
  unfolding extract is
  extract-outcome r =
      let a = select_tier no_article (tiers pages r) in
      let extracted =
        selected r (readability_tier pages r) (raw_dom pages (pages.parse r.body))
          (readability_tier-IsSound r) (raw_dom-IsSound (pages.parse r.body)) in
      elim (judged_article r a (a.word_count == 0) refl extracted) [
        | inl good ↦ inl (a, good.0, good.1, extracted)
        | inr bad ↦ inr (bad.0, refl, bad.1)
      ]
