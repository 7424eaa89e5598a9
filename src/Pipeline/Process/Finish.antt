-- ===== src/Pipeline/Process/Finish.antt =====
-- `summarizeAndFinish` of internal/pipeline/pipeline.go: the summary, the tags and the notification.
use reading_lite_next.Prelude.{String, ◌≡◌, ◌∙◌, Bool, true, false, none, some}
use reading_lite_next.Dict
use reading_lite_next.Dict.{Dict}
use reading_lite_next.Vector.{Entry}
use reading_lite_next.Errors.{Result, ok, err}
use reading_lite_next.Effects.{
  Act, ◌>>=◌, After, Meets, >>=-Meets, weaken-Meets, given-Meets, best_effort-Meets,
}
use reading_lite_next.Reading.{Reading}
use reading_lite_next.Vector.Similar.{Floats}
use reading_lite_next.Pipeline.{Content, Summary, Shared, Run, Pipeline}
use reading_lite_next.Pipeline.Process.{
  timed, notify_with, notify_if, notify_best_effort, record_notice, summarize_and_finish,
}
use reading_lite_next.Pipeline.Process.Asked.{IsAnswer, summarize-IsAnswer}
use reading_lite_next.Pipeline.Process.Steps.{write_content-Meets, write_tags-Meets}
use reading_lite_next.Pipeline.Process.Durable.{
  HasBlob, HasVector, IsAnchored, HasContent, HasTags, IsQuiet, HasBlob-others, IsAnchored-others,
  HasVector-others, HasContent-others, HasTags-others,
}
use reading_lite_next.Pipeline.Process.Rows.{content-After, tags-After, content_again-After}

module _ {fl : Floats} (p : Pipeline fl) (r : Reading) (q : IsQuiet p r.id) where
  abbrev pub Anchored : Shared fl → Type 0
  Anchored = IsAnchored r.id

  -- the content is stored under its key
  abbrev pub Kept : String → Shared fl → Type 0
  Kept key w = Anchored w × HasBlob key w × HasVector r.id w

  abbrev Written : String → Summary → Shared fl → Type 0
  Written key sum w = HasContent r.id key sum w × HasBlob key w × HasVector r.id w

  -- the row, its tags, its content and its vector are stored
  abbrev pub Stored : String → Summary → Shared fl → Type 0
  Stored key sum w = HasTags r.id key sum w × HasBlob key w × HasVector r.id w

  abbrev Indexed : Dict (Entry fl.F32) → Type 0
  Indexed m = (e : Entry fl.F32) × (Dict.get r.id m ≡ some e)

  pub Kept-others : (key : String) (w : Shared fl) → Kept key w → Kept key (p.others w)
  Kept-others key w (h, b, v) = (
    IsAnchored-others p r.id q w h,
    HasBlob-others p r.id q key w b,
    HasVector-others p r.id q w v,
  )

  Written-others :
      (key : String) (sum : Summary) (w : Shared fl)
      → Written key sum w
      → Written key sum (p.others w)
  Written-others key sum w (h, b, v) = (
    HasContent-others p r.id q key sum w h,
    HasBlob-others p r.id q key w b,
    HasVector-others p r.id q w v,
  )

  Stored-others :
      (key : String) (sum : Summary) (w : Shared fl)
      → Stored key sum w
      → Stored key sum (p.others w)
  Stored-others key sum w (h, b, v) = (
    HasTags-others p r.id q key sum w h,
    HasBlob-others p r.id q key w b,
    HasVector-others p r.id q w v,
  )

  notify_with-Stored :
      (key : String) (sum : Summary) (notifier : _)
      → Meets
          (λ (s : Run fl). Stored key sum s.shared)
          (notify_with p notifier r sum)
          (λ _ (s : Run fl). Stored key sum s.shared)
          (λ (s : Run fl). Anchored s.shared)
  unfolding notify_with ◌>>=◌ timed
  notify_with-Stored key sum none = record { met = λ s h. h }
  notify_with-Stored key sum (some send) = record {
    met = λ s h.
        Stored-others key sum _
          (Stored-others key sum (p.others s.shared) (Stored-others key sum s.shared h));
  }

  notify-Stored :
      (key : String) (sum : Summary) (on : Bool)
      → Meets
          (λ (s : Run fl). Stored key sum s.shared)
          (notify_if p on r sum)
          (λ _ (s : Run fl). Stored key sum s.shared)
          (λ (s : Run fl). Anchored s.shared)
  unfolding notify_if
  notify-Stored key sum true = notify_with-Stored key sum p.notifier
  notify-Stored key sum false = record { met = λ s h. h }

  record_notice-Stored :
      (key : String) (c : Content fl) (sum : Summary) (notified : Bool)
      → c.content_key ≡ key
      → Meets
          (λ (s : Run fl). Stored key sum s.shared)
          (record_notice p notified r c sum)
          (λ _ (s : Run fl). Stored key sum s.shared)
          (λ (s : Run fl). Anchored s.shared)
  unfolding record_notice
  record_notice-Stored key c sum true same = best_effort-Meets (
      write_content-Meets p (Stored key sum) r c sum (Stored key sum) (Stored key sum)
        (Stored-others key sum)
        λ w f k s h. content_again-After r.id key sum f w Indexed (k ∙ same) s h)
  record_notice-Stored key c sum false same = record { met = λ s h. h }

  with_summary_After :
      (key : String) (sum : Summary) (a : IsAnswer p r sum) (x : Result (Unit {0}) × Run fl)
      → After (λ _ (s : Run fl). Stored key sum s.shared) (λ (s : Run fl). Anchored s.shared) x
      → After
          (λ _ (s : Run fl). (sum : Summary) × IsAnswer p r sum × Stored key sum s.shared)
          (λ (s : Run fl). Anchored s.shared)
          x
  with_summary_After key sum a (ok u, s) h = (sum, a, h)
  with_summary_After key sum a (err e, s) h = h

  with_summary :
      (key : String) (sum : Summary) (a : IsAnswer p r sum) {m : Act (Run fl) (Unit {0})}
      → Meets
          (λ (s : Run fl). Stored key sum s.shared)
          m
          (λ _ (s : Run fl). Stored key sum s.shared)
          (λ (s : Run fl). Anchored s.shared)
      → Meets
          (λ (s : Run fl). Stored key sum s.shared)
          m
          (λ _ (s : Run fl). (sum : Summary) × IsAnswer p r sum × Stored key sum s.shared)
          (λ (s : Run fl). Anchored s.shared)
  with_summary key sum a {m} h = record {
    met = λ s k. with_summary_After key sum a (m s) (h.met s k);
  }

  pub finish-Stored :
      (key : String) (c : Content fl)
      → c.content_key ≡ key
      → Meets
          (λ (s : Run fl). Kept key s.shared)
          (summarize_and_finish p r c)
          (λ _ (s : Run fl). (sum : Summary) × IsAnswer p r sum × Stored key sum s.shared)
          (λ (s : Run fl). Anchored s.shared)
  unfolding summarize_and_finish notify_best_effort
  finish-Stored key c same =
      >>=-Meets (λ sum (s : Run fl). IsAnswer p r sum × Kept key s.shared)
        (weaken-Meets (λ (s : Run fl). Kept key s.shared) (λ s h. h.0)
          (summarize-IsAnswer p (Kept key) (Kept-others key) r c))
        λ sum. given-Meets λ a.
          >>=-Meets (λ _ (s : Run fl). Written key sum s.shared)
            (write_content-Meets p (Kept key) r c sum (Written key sum) Anchored (Kept-others key)
              λ w f k s h. content-After r.id key sum f w Indexed (k ∙ same) s h)
            λ _.
              >>=-Meets (λ _ (s : Run fl). Stored key sum s.shared)
                (write_tags-Meets p (Written key sum) r sum (Stored key sum) Anchored
                  (Written-others key sum) λ w f h. tags-After r.id key sum f w Indexed h)
                λ _.
                  >>=-Meets (λ _ (s : Run fl). Stored key sum s.shared)
                    (notify-Stored key sum p.config.notify_enabled)
                    λ notified.
                      with_summary key sum a (record_notice-Stored key c sum notified same)
