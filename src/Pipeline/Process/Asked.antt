-- ===== src/Pipeline/Process/Asked.antt =====
-- The call of the summarizer in a run of internal/pipeline/pipeline.go.
use reading_lite_next.Prelude.{◌≡◌, refl}
use reading_lite_next.Errors.{Result, ok, err}
use reading_lite_next.Effects.{After, Meets}
use reading_lite_next.Reading.{Reading}
use reading_lite_next.Vector.Similar.{Floats}
use reading_lite_next.Pipeline.{Content, Summary, Shared, Run, Pipeline, ask}
use reading_lite_next.Pipeline.Fields.{summary_input}
use reading_lite_next.Pipeline.Process.{timed}
use reading_lite_next.Pipeline.Process.Steps.{access-Meets, timed-Meets}

module _ {fl : Floats} (p : Pipeline fl) where
  -- The summarizer gave this summary, on some content of the reading.
  abbrev pub IsAnswer : Reading → Summary → Type 0
  IsAnswer r sum = (w : Shared fl) × (c : Content fl) × (p.summarize w (summary_input r c) ≡ ok sum)

  module _ (K : Shared fl → Type 0) (open' : (w : Shared fl) → K w → K (p.others w)) where
    answered :
        (r : Reading) (c : Content fl) (w : Shared fl) (x : Result Summary)
        → p.summarize w (summary_input r c) ≡ x
        → K w
        → After (λ sum v. IsAnswer r sum × K v) K (x, w)
    answered r c w (ok sum) h k = ((w, c, h), k)
    answered r c w (err e) h k = k

    pub summarize-IsAnswer :
        (r : Reading) (c : Content fl)
        → Meets
            (λ (s : Run fl). K s.shared)
            (timed p "summarize" (ask p p.summarize (summary_input r c)))
            (λ sum (s : Run fl). IsAnswer r sum × K s.shared)
            (λ (s : Run fl). K s.shared)
    summarize-IsAnswer r c =
        timed-Meets p "summarize" K (ask p p.summarize (summary_input r c))
          (λ sum w. IsAnswer r sum × K w) K open' (λ sum w (a, k). (a, open' w k)) open'
          (access-Meets p K _ (λ sum w. IsAnswer r sum × K w) K open'
            λ w k. answered r c w (p.summarize w (summary_input r c)) refl k)
