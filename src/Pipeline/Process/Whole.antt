-- ===== src/Pipeline/Process/Whole.antt =====
-- What a whole run of internal/pipeline/pipeline.go keeps, if each of its writes keeps it.
use reading_lite_next.Prelude.{
  String, ◌≡◌, refl, Bool, true, false, Option, none, some, ◌++◌, [], ◌∷◌, str_eq, Bool-cases, inl,
  inr,
}
use reading_lite_next.Errors.{Error, Result, ok, err}
use reading_lite_next.Reading.{Reading, reddit, same_source}
use reading_lite_next.Vector.Similar.{Floats}
use reading_lite_next.Pipeline.{Content, Summary, no_summary, Email, Shared, Run, Pipeline}
use reading_lite_next.Pipeline.Fields.{raw_key}
use reading_lite_next.Pipeline.Process.{
  notify_with, notify_if, notify_best_effort, record_notice, summarize_and_finish, resume, start,
  run_reading, get_by_id, returned, processed, process,
}
use reading_lite_next.Pipeline.Process.Keeps.{
  Keeps, IsOpen, AdmitsBlob, AdmitsVector, AdmitsContent, AdmitsTags, >>=-Keeps, timed-Keeps,
  local-Keeps, acquire-Keeps, index-Keeps, reuse-Keeps, write_content-Keeps, write_tags-Keeps,
  upsert_vector-Keeps, summarize-Keeps, get_by_id-Keeps,
}

module _ {fl : Floats} (p : Pipeline fl) (I : Shared fl → Type 0) (open' : IsOpen p I)
    (blob : (key : String) → AdmitsBlob p I key)
    (mail : (w : Shared fl) (e : Email) → I w → I (record w { sent = w.sent ++ (e ∷ []) })) where
  notify_with-Keeps :
      (notifier : Option (Shared fl → Email → Option Error)) (r : Reading) (sum : Summary)
      → Keeps p I (notify_with p notifier r sum)
  unfolding notify_with
  notify_with-Keeps none r sum = local-Keeps p I λ s. refl
  notify_with-Keeps (some send) r sum = timed-Keeps p I open' "notify" (
      >>=-Keeps p I (record { kept = λ s h. mail _ _ (open' s.shared h) })
        λ failure. >>=-Keeps p I (local-Keeps p I λ s. refl) λ _. local-Keeps p I λ s. refl)

  notify_if-Keeps : (on : Bool) (r : Reading) (sum : Summary) → Keeps p I (notify_if p on r sum)
  unfolding notify_if
  notify_if-Keeps true r sum = notify_with-Keeps p.notifier r sum
  notify_if-Keeps false r sum = local-Keeps p I λ s. refl

  module _ (r : Reading) (vector : AdmitsVector p I r)
      (content : (key : String) → AdmitsContent p I r key) (tags : AdmitsTags p I r) where
    record_notice-Keeps :
        (notified : Bool) (c : Content fl) (sum : Summary)
        → Keeps p I (record_notice p notified r c sum)
    unfolding record_notice
    record_notice-Keeps true c sum = record {
      kept = (write_content-Keeps p I open' r c sum (content c.content_key)).kept;
    }
    record_notice-Keeps false c sum = local-Keeps p I λ s. refl

    finish-Keeps : (c : Content fl) → Keeps p I (summarize_and_finish p r c)
    unfolding summarize_and_finish notify_best_effort
    finish-Keeps c = >>=-Keeps p I (summarize-Keeps p I open' r c) λ sum.
        >>=-Keeps p I (write_content-Keeps p I open' r c sum (content c.content_key)) λ _.
          >>=-Keeps p I (write_tags-Keeps p I open' r sum tags) λ _.
            >>=-Keeps p I (notify_if-Keeps p.config.notify_enabled r sum)
              λ notified. record_notice-Keeps notified c sum

    resume-Keeps : Keeps p I (resume p r)
    unfolding resume
    resume-Keeps = >>=-Keeps p I (timed-Keeps p I open' "acquire" (reuse-Keeps p I open' r)) λ c.
        >>=-Keeps p I (local-Keeps p I λ s. refl) λ _.
          >>=-Keeps p I
            (timed-Keeps p I open' "vector_upsert" (upsert_vector-Keeps p I open' r c vector))
            λ _. finish-Keeps c

    start-Keeps : Keeps p I (start p r)
    unfolding start
    start-Keeps =
        >>=-Keeps p I
          (timed-Keeps p I open' "acquire" (acquire-Keeps p I open' r (blob (raw_key r))))
          λ acquired.
            >>=-Keeps p I
              (timed-Keeps p I open' "index"
                (index-Keeps p I open' r acquired (blob acquired.content_key)))
              λ c.
                >>=-Keeps p I
                  (timed-Keeps p I open' "checkpoint"
                    (write_content-Keeps p I open' r c no_summary (content c.content_key)))
                  λ _.
                    >>=-Keeps p I
                      (timed-Keeps p I open' "vector_upsert"
                        (upsert_vector-Keeps p I open' r c vector))
                      λ _. finish-Keeps c

    run_reading-Keeps : Keeps p I (run_reading p r)
    unfolding run_reading
    run_reading-Keeps = elim (Bool-cases (str_eq r.content_key "")) [
      | inl fresh ↦ rw fresh start-Keeps
      | inr stored ↦ rw stored resume-Keeps
    ]

    returned-shared : (x : Result (Unit {0}) × Run fl) → I x.1.shared → I (returned p x).1.shared
    returned-shared (ok u, s) h = h
    returned-shared (err e, s) h = h

    processed-shared :
        (x : Result Reading × Run fl)
        → ((r' : Reading) → x.0 ≡ ok r' → r' ≡ r)
        → I x.1.shared
        → I (processed p x).1.shared
    unfolding processed
    processed-shared (err e, s) found h = h
    processed-shared (ok r', s) found h = elim (Bool-cases (same_source r'.source_kind reddit)) [
      | inl blocked ↦ rw blocked h
      | inr other ↦ rw (other, found r' refl) (returned-shared _ (run_reading-Keeps.kept _ h))
    ]

    -- from the row that the run reads
    pub process-shared :
        (s : Run fl)
        → ((r' : Reading) → (get_by_id p r.id s).0 ≡ ok r' → r' ≡ r)
        → I s.shared
        → I (process p r.id s).1.shared
    unfolding process
    process-shared s found h =
        processed-shared (get_by_id p r.id s) found ((get_by_id-Keeps p I open' r.id).kept s h)
