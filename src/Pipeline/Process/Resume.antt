-- ===== src/Pipeline/Process/Resume.antt =====
-- The idempotent re-entry of `Process` in internal/pipeline/pipeline.go.
use reading_lite_next.Prelude.{
  String, ◌≡◌, ◌≢◌, refl, ap, false, Option, Bool-cases, inl, inr, str_eq, arith, eq_iff,
}
use reading_lite_next.Errors.{Result, ok, err}
use reading_lite_next.Effects.{◌>>=◌}
use reading_lite_next.Reading.{Reading, reddit, same_source}
use reading_lite_next.Vector.Similar.{Floats}
use reading_lite_next.Pipeline.{Article, Resource, Shared, Run, Pipeline}
use reading_lite_next.Pipeline.Fields.{count_items, content_fields}
use reading_lite_next.Pipeline.Process.{
  timed, reuse, write_content, write_tags, upsert_vector, vector_of, notify_with, notify_if,
  notify_best_effort, record_notice, summarize_and_finish, resume, run_reading, get_by_id, returned,
  processed, process,
}

module _ {fl : Floats} (p : Pipeline fl) (fetch : Shared fl → String → Result Resource)
    (extract : Shared fl → Resource → Result Article)
    (youtube : Option (Shared fl → String → Result Article)) where
  abbrev other_sources : Pipeline fl
  other_sources = record p { fetch = fetch; extract = extract; youtube = youtube }

  resume-other_sources : (r : Reading) (s : Run fl) → resume p r s ≡ resume other_sources r s
  unfolding timed reuse count_items content_fields write_content write_tags upsert_vector vector_of
      notify_with notify_if notify_best_effort record_notice summarize_and_finish resume ◌>>=◌
  resume-other_sources r s = refl

  run_reading-other_sources :
      (r : Reading) (s : Run fl)
      → str_eq r.content_key "" ≡ false
      → run_reading p r s ≡ run_reading other_sources r s
  unfolding run_reading
  run_reading-other_sources r s stored = rw stored (resume-other_sources r s)

  processed-other_sources :
      (x : Result Reading × Run fl)
      → ((r : Reading) → x.0 ≡ ok r → str_eq r.content_key "" ≡ false)
      → processed p x ≡ processed other_sources x
  unfolding processed
  processed-other_sources (err e, s) stored = refl
  processed-other_sources (ok r, s) stored = elim (Bool-cases (same_source r.source_kind reddit)) [
    | inl blocked ↦ rw blocked refl
    | inr other ↦ rw other (ap (returned p) (run_reading-other_sources r _ (stored r refl)))
  ]

  -- A run of a reading whose content an earlier run stored neither fetches nor extracts: whatever
  -- the fetcher and the extractors would answer, it does the same and returns the same.
  pub process-other_sources :
      (id : String) (s : Run fl) (r : Reading)
      → (get_by_id p id s).0 ≡ ok r
      → r.content_key ≢ ""
      → process p id s ≡ process other_sources id s
  unfolding process
  process-other_sources id s r found stored =
      processed-other_sources (get_by_id p id s)
        λ r' same. ground (arith, found, same, eq_iff r.content_key "")
