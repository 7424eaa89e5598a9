-- ===== src/Pipeline/Process/Done.antt =====
-- A whole run in internal/pipeline/pipeline.go: what it returns, and what it leaves.
use reading_lite_next.Prelude.{◌≡◌, refl, ◌∙◌, some, arith, Bool-cases, inl, inr, ◌≢◌}
use reading_lite_next.Dict
use reading_lite_next.Dict.{Dict}
use reading_lite_next.Errors.{Error, Result, ok, err}
use reading_lite_next.Effects.{After}
use reading_lite_next.Reading.{Reading, reddit, same_source}
use reading_lite_next.Dispatch.{RunResult, done, classify}
use reading_lite_next.Vector.Similar.{Floats}
use reading_lite_next.Pipeline.{Summary, Run, Pipeline}
use reading_lite_next.Pipeline.Process.{get_by_id, returned, processed, process}
use reading_lite_next.Pipeline.Process.Keeps.{get_by_id-Keeps}
use reading_lite_next.Pipeline.Process.Durable.{
  run_content_key, IsAnchored, IsQuiet, IsAnchored-others,
}
use reading_lite_next.Pipeline.Process.Asked.{IsAnswer}
use reading_lite_next.Pipeline.Process.Rows.{HasContent-IsAnchored}
use reading_lite_next.Pipeline.Process.Keeps.{get_row-same}
use reading_lite_next.Pipeline.Process.Stored.{run_reading-Stored}
use reading_lite_next.Pipeline.Process.Finish.{Anchored, Stored}

module _ {fl : Floats} (p : Pipeline fl) (r : Reading) (q : IsQuiet p r.id) where
  -- what a run returns, and what it left
  abbrev Final : RunResult × Run fl → Type 0
  Final (res, s) =
      (Anchored p r q) s.shared
      × (res.outcome ≡ done
          → (sum : Summary) × IsAnswer p r sum × (Stored p r q) (run_content_key r) sum s.shared)

  classify-done : (e : Error) → (classify (some e)).outcome ≢ done
  unfolding classify
  classify-done e h = ground (arith, h)

  returned-Final :
      (x : Result (Unit {0}) × Run fl)
      → After
          (λ _ (s : Run fl).
            (sum : Summary) × IsAnswer p r sum × (Stored p r q) (run_content_key r) sum s.shared)
          (λ (s : Run fl). (Anchored p r q) s.shared)
          x
      → Final (returned p x)
  returned-Final (ok u, s) (sum, a, (t, b, v)) = (
    HasContent-IsAnchored r.id (run_content_key r) sum s.shared (t.0, t.1, t.2, t.3) b,
    λ _. (sum, a, (t, b, v)),
  )
  returned-Final (err e, s) h = (h, λ same. absurd (classify-done e same))

  processed-Final :
      (x : Result Reading × Run fl)
      → (Anchored p r q) x.1.shared
      → ((r' : Reading) → x.0 ≡ ok r' → r' ≡ r)
      → Final (processed p x)
  unfolding processed
  processed-Final (err e, s) h found = (h, λ same. absurd (classify-done e same))
  processed-Final (ok r', s) h found = elim (Bool-cases (same_source r'.source_kind reddit)) [
    | inl blocked ↦ rw blocked (h, λ same. absurd (ground (arith, same)))
    | inr other ↦ rw (other, found r' refl) (returned-Final _ ((run_reading-Stored p r q).met _ h))
  ]

  process-Final :
      (s : Run fl)
      → Dict.get r.id s.shared.store.by_id ≡ some r
      → IsAnchored r.id s.shared
      → Final (process p r.id s)
  unfolding process
  process-Final s at h =
      let w = p.others s.shared in
      processed-Final (get_by_id p r.id s)
        ((get_by_id-Keeps p (IsAnchored r.id) (IsAnchored-others p r.id q) r.id).kept s h)
        (λ r' found. get_row-same w.ctx r.id w.store r r' (q.rows s.shared ∙ at) found)

  -- When other threads leave its row, its vector and the stored blobs alone, and the content key of
  -- its row does not dangle at its start, a run of a stored reading does not leave it dangling, however
  -- it ends: the blob of the row's content key is stored.
  pub process-IsAnchored :
      (s : Run fl)
      → Dict.get r.id s.shared.store.by_id ≡ some r
      → IsAnchored r.id s.shared
      → IsAnchored r.id (process p r.id s).1.shared
  process-IsAnchored s at h = (process-Final s at h).0
