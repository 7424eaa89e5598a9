-- ===== src/Pipeline/Process/Stored.antt =====
-- A whole run in internal/pipeline/pipeline.go: from its first step to its last.
use reading_lite_next.Prelude.{String, ◌≡◌, refl, ◌∙◌, str_eq, Bool-cases, inl, inr}
use reading_lite_next.Effects.{Meets, >>=-Meets, weaken-Meets, given-Meets}
use reading_lite_next.Reading.{Reading}
use reading_lite_next.Vector.Similar.{Floats}
use reading_lite_next.Pipeline.{Content, Summary, no_summary, Shared, Run, Pipeline}
use reading_lite_next.Pipeline.Fields.{content_key}
use reading_lite_next.Pipeline.Process.{
  timed, acquire, index, reuse, write_content, upsert_vector, resume, start, run_reading,
}
use reading_lite_next.Pipeline.Process.Keeps.{Keeps-Meets, vector_of-Keeps}
use reading_lite_next.Pipeline.Process.Steps.{timed-Meets, access-Meets, write_content-Meets}
use reading_lite_next.Pipeline.Process.Durable.{
  run_content_key, HasBlob, IsQuiet, HasBlob-others, IsAnchored-others,
}
use reading_lite_next.Pipeline.Process.Acquired.{acquire-IsAnchored, index-IsAnchored}
use reading_lite_next.Pipeline.Process.Writes.{get-After, upsert-After}
use reading_lite_next.Pipeline.Process.Asked.{IsAnswer}
use reading_lite_next.Pipeline.Process.Rows.{checkpoint-After}
use reading_lite_next.Pipeline.Process.Finish.{Anchored, Kept, Stored, Kept-others, finish-Stored}

module _ {fl : Floats} (p : Pipeline fl) (r : Reading) (q : IsQuiet p r.id) where
  -- the content is stored
  abbrev Ready : String → Shared fl → Type 0
  Ready key w = (Anchored p r q) w × HasBlob key w

  Ready-others : (key : String) (w : Shared fl) → Ready key w → Ready key (p.others w)
  Ready-others key w (h, b) = (IsAnchored-others p r.id q w h, HasBlob-others p r.id q key w b)

  upsert-Kept :
      (key : String) (c : Content fl)
      → Meets
          (λ (s : Run fl). Ready key s.shared)
          (upsert_vector p r c)
          (λ _ (s : Run fl). (Kept p r q) key s.shared)
          (λ (s : Run fl). (Anchored p r q) s.shared)
  unfolding upsert_vector
  upsert-Kept key c =
      >>=-Meets (λ _ (s : Run fl). Ready key s.shared)
        (weaken-Meets (λ (s : Run fl). Ready key s.shared) (λ s h. h.0)
          (Keeps-Meets p (Ready key) (vector_of-Keeps p (Ready key) (Ready-others key) c c.vec)))
        λ vec.
          access-Meets p (Ready key) _ (λ _. (Kept p r q) key) (Anchored p r q) (Ready-others key)
            λ w h. upsert-After r.id key vec r.started_at w h

  timed_upsert-Kept :
      (key : String) (c : Content fl)
      → Meets
          (λ (s : Run fl). Ready key s.shared)
          (timed p "vector_upsert" (upsert_vector p r c))
          (λ _ (s : Run fl). (Kept p r q) key s.shared)
          (λ (s : Run fl). (Anchored p r q) s.shared)
  timed_upsert-Kept key c =
      timed-Meets p "vector_upsert" (Ready key) _ (λ _. (Kept p r q) key) (Anchored p r q)
        (Ready-others key) (λ _. (Kept-others p r q) key) (IsAnchored-others p r.id q)
        (upsert-Kept key c)

  reuse-Ready :
      Meets
        (λ (s : Run fl). (Anchored p r q) s.shared)
        (reuse p r)
        (λ c (s : Run fl). (c.content_key ≡ r.content_key) × Ready r.content_key s.shared)
        (λ (s : Run fl). (Anchored p r q) s.shared)
  unfolding reuse
  reuse-Ready =
      >>=-Meets (λ _ (s : Run fl). Ready r.content_key s.shared)
        (access-Meets p (Anchored p r q) _ (λ _. Ready r.content_key) (Anchored p r q)
          (IsAnchored-others p r.id q) λ w h. get-After r.id r.content_key w h)
        λ blob.
          >>=-Meets (λ _ (s : Run fl). Ready r.content_key s.shared) (record { met = λ s h. h })
            λ _. record { met = λ s (h, b). (refl, (h, b)) }

  -- a run that resumes
  resume-Stored :
      Meets
        (λ (s : Run fl). (Anchored p r q) s.shared)
        (resume p r)
        (λ _ (s : Run fl).
          (sum : Summary) × IsAnswer p r sum × (Stored p r q) r.content_key sum s.shared)
        (λ (s : Run fl). (Anchored p r q) s.shared)
  unfolding resume
  resume-Stored =
      >>=-Meets (λ c (s : Run fl). (c.content_key ≡ r.content_key) × Ready r.content_key s.shared)
        (timed-Meets p "acquire" (Anchored p r q) (reuse p r)
          (λ c w. (c.content_key ≡ r.content_key) × Ready r.content_key w) (Anchored p r q)
          (IsAnchored-others p r.id q) (λ c w (same, h). (same, Ready-others r.content_key w h))
          (IsAnchored-others p r.id q) reuse-Ready)
        λ c. given-Meets λ same.
          >>=-Meets (λ _ (s : Run fl). Ready r.content_key s.shared) (record { met = λ s h. h })
            λ _.
              >>=-Meets (λ _ (s : Run fl). (Kept p r q) r.content_key s.shared)
                (timed_upsert-Kept r.content_key c) λ _. (finish-Stored p r q) r.content_key c same

  index-Ready :
      (key : String) (c : Content fl)
      → c.content_key ≡ key
      → Meets
          (λ (s : Run fl). (Anchored p r q) s.shared)
          (timed p "index" (index p r c))
          (λ c' (s : Run fl). (c'.content_key ≡ key) × Ready key s.shared)
          (λ (s : Run fl). (Anchored p r q) s.shared)
  index-Ready key c same =
      timed-Meets p "index" (Anchored p r q) (index p r c)
        (λ c' w. (c'.content_key ≡ key) × Ready key w) (Anchored p r q) (IsAnchored-others p r.id q)
        (λ c' w (same', h). (same', Ready-others key w h)) (IsAnchored-others p r.id q)
        (rw (← same) (index-IsAnchored p r q c))

  checkpoint-Ready :
      (key : String) (c : Content fl)
      → c.content_key ≡ key
      → Meets
          (λ (s : Run fl). Ready key s.shared)
          (timed p "checkpoint" (write_content p r c no_summary))
          (λ _ (s : Run fl). Ready key s.shared)
          (λ (s : Run fl). (Anchored p r q) s.shared)
  checkpoint-Ready key c same =
      timed-Meets p "checkpoint" (Ready key) (write_content p r c no_summary) (λ _. Ready key)
        (Anchored p r q) (Ready-others key) (λ _. Ready-others key) (IsAnchored-others p r.id q)
        (write_content-Meets p (Ready key) r c no_summary (Ready key) (Anchored p r q)
          (Ready-others key) λ w f k s h. checkpoint-After r.id key no_summary f w (k ∙ same) s h)

  acquire-Ready :
      Meets
        (λ (s : Run fl). (Anchored p r q) s.shared)
        (timed p "acquire" (acquire p r))
        (λ c (s : Run fl). (c.content_key ≡ content_key r) × (Anchored p r q) s.shared)
        (λ (s : Run fl). (Anchored p r q) s.shared)
  acquire-Ready =
      timed-Meets p "acquire" (Anchored p r q) (acquire p r)
        (λ c w. (c.content_key ≡ content_key r) × (Anchored p r q) w) (Anchored p r q)
        (IsAnchored-others p r.id q) (λ c w (same, h). (same, IsAnchored-others p r.id q w h))
        (IsAnchored-others p r.id q) (acquire-IsAnchored p r q)

  -- a fresh run
  start-Stored :
      Meets
        (λ (s : Run fl). (Anchored p r q) s.shared)
        (start p r)
        (λ _ (s : Run fl).
          (sum : Summary) × IsAnswer p r sum × (Stored p r q) (content_key r) sum s.shared)
        (λ (s : Run fl). (Anchored p r q) s.shared)
  unfolding start
  start-Stored =
      let key = content_key r in
      >>=-Meets (λ c (s : Run fl). (c.content_key ≡ key) × (Anchored p r q) s.shared) acquire-Ready
        λ acquired. given-Meets λ same.
          >>=-Meets (λ c (s : Run fl). (c.content_key ≡ key) × Ready key s.shared)
            (index-Ready key acquired same)
            λ c. given-Meets λ same'.
              >>=-Meets (λ _ (s : Run fl). Ready key s.shared) (checkpoint-Ready key c same')
                λ _.
                  >>=-Meets (λ _ (s : Run fl). (Kept p r q) key s.shared) (timed_upsert-Kept key c)
                    λ _. (finish-Stored p r q) key c same'

  pub run_reading-Stored :
      Meets
        (λ (s : Run fl). (Anchored p r q) s.shared)
        (run_reading p r)
        (λ _ (s : Run fl).
          (sum : Summary) × IsAnswer p r sum × (Stored p r q) (run_content_key r) sum s.shared)
        (λ (s : Run fl). (Anchored p r q) s.shared)
  unfolding run_reading
  run_reading-Stored = elim (Bool-cases (str_eq r.content_key "")) [
    | inl fresh ↦ rw fresh start-Stored
    | inr stored ↦ rw stored resume-Stored
  ]
