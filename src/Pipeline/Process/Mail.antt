-- ===== src/Pipeline/Process/Mail.antt =====
-- The emails that a run in internal/pipeline/pipeline.go sends.
use reading_lite_next.Prelude.{◌≡◌, true, List, [], ◌∷◌, ◌++◌, ◌⊎◌}
use reading_lite_next.Errors.{Result, ok}
use reading_lite_next.Reading.{Reading}
use reading_lite_next.Dispatch.{RunResult, done}
use reading_lite_next.Vector.Similar.{Floats}
use reading_lite_next.Pipeline.{Summary, Email, Shared, Run, Pipeline}
use reading_lite_next.Pipeline.Fields.{email_of}
use reading_lite_next.Pipeline.Process.Asked.{IsAnswer}

module _ {fl : Floats} (p : Pipeline fl) (sent : List Email)
    (quiet : (w : Shared fl) → (p.others w).sent ≡ w.sent) where
  abbrev Unsent : Shared fl → Type 0
  Unsent w = w.sent ≡ sent

  abbrev Before : Run fl → Type 0
  Before s = Unsent s.shared

  -- nothing was sent, or one email on a summary
  abbrev MailedOnce : Reading → Run fl → Type 0
  MailedOnce r s =
      Before s
      ⊎ ((p.config.notify_enabled ≡ true)
          × ((sum : Summary) × (IsAnswer p r sum)
              × (s.shared.sent ≡ sent ++ (email_of p.config sum r ∷ []))))

  -- what a run returns, and what it sent
  abbrev pub IsMailed : Result Reading → RunResult × Run fl → Type 0
  IsMailed found x =
      (x.1.shared.sent ≡ sent)
      ⊎ ((x.0.outcome ≡ done)
          × ((p.config.notify_enabled ≡ true)
              × ((r : Reading) × (sum : Summary) × (found ≡ ok r)
                  × (IsAnswer p r sum)
                  × (x.1.shared.sent ≡ sent ++ (email_of p.config sum r ∷ [])))))
