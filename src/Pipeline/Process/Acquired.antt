-- ===== src/Pipeline/Process/Acquired.antt =====
-- The content that `acquire` and `index` of internal/pipeline/pipeline.go return, and its blob.
use reading_lite_next.Prelude.{
  String, ◌≡◌, refl, Option, none, some, str_eq, ◌&&◌, Bool-cases, inl, inr,
}
use reading_lite_next.Errors.{Result}
use reading_lite_next.Effects.{Meets, >>=-Meets}
use reading_lite_next.Reading.{Reading, same_source, markdown, youtube}
use reading_lite_next.Vector.Similar.{Floats}
use reading_lite_next.Pipeline.{Article, Content, Shared, Run, Pipeline}
use reading_lite_next.Pipeline.Fields.{raw_key, content_key}
use reading_lite_next.Pipeline.Process.{
  acquire, acquire_web, acquire_markdown, acquire_fetched, acquire_youtube, index,
}
use reading_lite_next.Pipeline.Process.Keeps.{
  Keeps-Meets, reading-Keeps, local-Keeps, put_blob-Keeps, hydrate-Keeps,
}
use reading_lite_next.Pipeline.Process.Steps.{access-Meets}
use reading_lite_next.Pipeline.Process.Durable.{HasBlob, IsAnchored, IsQuiet, IsAnchored-others}
use reading_lite_next.Pipeline.Process.Writes.{put-IsAnchored, put-After}

module _ {fl : Floats} (p : Pipeline fl) (r : Reading) (q : IsQuiet p r.id) where
  abbrev Anchored : Shared fl → Type 0
  Anchored = IsAnchored r.id

  abbrev Here : Run fl → Type 0
  Here s = Anchored s.shared

  -- content of this run
  abbrev Own : Content fl → Run fl → Type 0
  Own c s = (c.content_key ≡ content_key r) × Anchored s.shared

  open' : (w : Shared fl) → Anchored w → Anchored (p.others w)
  open' = IsAnchored-others p r.id q

  acquire_fetched-IsAnchored : Meets Here (acquire_fetched p r) Own Here
  unfolding acquire_fetched
  acquire_fetched-IsAnchored =
      >>=-Meets (λ _. Here) (Keeps-Meets p Anchored (reading-Keeps p Anchored open' λ s. refl))
        λ res.
          >>=-Meets (λ _. Here) (Keeps-Meets p Anchored (local-Keeps p Anchored λ s. refl))
            λ _.
              >>=-Meets (λ _. Here)
                (Keeps-Meets p Anchored (reading-Keeps p Anchored open' λ s. refl))
                λ article.
                  >>=-Meets (λ _. Here) (Keeps-Meets p Anchored (local-Keeps p Anchored λ s. refl))
                    λ _.
                      >>=-Meets (λ _. Here)
                        (Keeps-Meets p Anchored (
                          put_blob-Keeps p Anchored open' (raw_key r) res.body res.content_type
                            λ w body kind h. put-IsAnchored r.id (raw_key r) body kind w h))
                        λ _. record { met = λ s h. (refl, h) }

  acquire_youtube-IsAnchored :
      (extract : Shared fl → String → Result Article)
      → Meets Here (acquire_youtube p extract r) Own Here
  unfolding acquire_youtube
  acquire_youtube-IsAnchored extract =
      >>=-Meets (λ _. Here) (Keeps-Meets p Anchored (reading-Keeps p Anchored open' λ s. refl))
        λ article.
          >>=-Meets (λ _. Here) (Keeps-Meets p Anchored (local-Keeps p Anchored λ s. refl))
            λ _. record { met = λ s h. (refl, h) }

  acquire_web-IsAnchored :
      (extractor : Option (Shared fl → String → Result Article))
      → Meets Here (acquire_web p extractor r) Own Here
  unfolding acquire_web
  acquire_web-IsAnchored none = acquire_fetched-IsAnchored
  acquire_web-IsAnchored (some extract) =
      elim (Bool-cases (same_source r.source_kind youtube && p.is_youtube_video_key r.url_key)) [
        | inl video ↦ rw video (acquire_youtube-IsAnchored extract)
        | inr page ↦ rw page acquire_fetched-IsAnchored
      ]

  acquire_markdown-IsAnchored : Meets Here (acquire_markdown p r) Own Here
  unfolding acquire_markdown
  acquire_markdown-IsAnchored = elim (Bool-cases (str_eq r.raw_key "")) [
    | inl unset ↦ rw unset (record { met = λ s h. h })
    | inr key ↦ rw key (
        >>=-Meets (λ _. Here) (Keeps-Meets p Anchored (reading-Keeps p Anchored open' λ s. refl))
          λ blob. record { met = λ s h. (refl, h) })
  ]

  pub acquire-IsAnchored :
      Meets
        (λ (s : Run fl). IsAnchored r.id s.shared)
        (acquire p r)
        (λ c (s : Run fl). (c.content_key ≡ content_key r) × IsAnchored r.id s.shared)
        (λ (s : Run fl). IsAnchored r.id s.shared)
  unfolding acquire
  acquire-IsAnchored = elim (Bool-cases (same_source r.source_kind markdown)) [
    | inl body ↦ rw body acquire_markdown-IsAnchored
    | inr page ↦ rw page (acquire_web-IsAnchored p.youtube)
  ]

  pub index-IsAnchored :
      (c : Content fl)
      → Meets
          (λ (s : Run fl). IsAnchored r.id s.shared)
          (index p r c)
          (λ c' (s : Run fl).
            (c'.content_key ≡ c.content_key)
            × (IsAnchored r.id s.shared × HasBlob c.content_key s.shared))
          (λ (s : Run fl). IsAnchored r.id s.shared)
  unfolding index
  index-IsAnchored c =
      >>=-Meets (λ _. Here) (Keeps-Meets p Anchored (reading-Keeps p Anchored open' λ s. refl))
        λ vec.
          >>=-Meets (λ _. Here) (Keeps-Meets p Anchored (reading-Keeps p Anchored open' λ s. refl))
            λ matches.
              >>=-Meets (λ _. Here)
                (Keeps-Meets p Anchored (hydrate-Keeps p Anchored open' matches))
                λ similar.
                  >>=-Meets (λ _. Here) (Keeps-Meets p Anchored (local-Keeps p Anchored λ s. refl))
                    λ _.
                      >>=-Meets (λ _. Here)
                        (Keeps-Meets p Anchored (local-Keeps p Anchored λ s. refl))
                        λ json.
                          >>=-Meets
                            (λ _ (s : Run fl). Anchored s.shared × HasBlob c.content_key s.shared)
                            (access-Meets p Anchored _ (λ _ w. Anchored w × HasBlob c.content_key w)
                              Anchored open'
                              λ w h. put-After r.id c.content_key c.markdown "text/markdown" w h)
                            λ _. record { met = λ s h. (refl, h) }
