-- ===== src/Pipeline/Process.antt =====
-- internal/pipeline/pipeline.go: `Process` and its steps.
pub mod Keeps
pub mod Superseded
pub mod Mail
pub mod Steps
pub mod Durable
pub mod Writes
pub mod Rows
pub mod Acquired
pub mod Asked
pub mod Finish
pub mod Stored
pub mod Done
pub mod Whole
pub mod Confined
pub mod Resume
use reading_lite_next.Prelude.{
  ℕ, String, Bool, true, false, not, ◌&&◌, Option, none, some, List, [], ◌∷◌, ◌++◌, str_eq,
  if◌then◌else◌, length, pos,
}
use reading_lite_next.Dict.{Dict}
use reading_lite_next.Errors.{Error, message, sentinel, wrapped, permanent, Result, ok, err}
use reading_lite_next.Effects.{Act, next, ◌>>=◌, ◌>>◌, give, throw, lift, try, best_effort}
use reading_lite_next.Reading.{
  Time, Reading, SourceKind, ready, youtube, reddit, markdown, same_status, same_source,
}
use reading_lite_next.Dispatch.{RunResult, done, fail, classify}
use reading_lite_next.Store.Types.{TagFields}
use reading_lite_next.Store.Memory.{get_by_id as get_row}
use reading_lite_next.Store.Updates
use reading_lite_next.Blobs
use reading_lite_next.Blobs.{Blob}
use reading_lite_next.Vector
use reading_lite_next.Vector.Similar
use reading_lite_next.Vector.Similar.{Floats, Match}
use reading_lite_next.Pipeline.{
  Article, Resource, Summary, no_summary, Email, Diagnostics, SimilarItem, Content, Shared, Run,
  Pipeline, on_shared, access, in_store, in_blobs, in_vectors, ask, clock, update_diag, read_diag,
}
use reading_lite_next.Pipeline.Fields.{
  new_diagnostics, source_text, ensure_timing, stop_timing, raw_key, content_key,
  classify_fetch_status, top_k, email_of, embed_text, count_items, content_fields, summary_input,
  extracted, imported, checkpointed,
}

module _ {fl : Floats} (p : Pipeline fl) where
  abbrev pub get_by_id : String → Act (Run fl) Reading
  get_by_id id = access p (in_store λ w. get_row w.ctx id)

  abbrev pub get_blob : String → Act (Run fl) (Blob String)
  get_blob key = access p (in_blobs λ w b. (Blobs.get w.ctx key b, b))

  abbrev pub put_blob : String → String → String → Act (Run fl) (Unit {0})
  put_blob key body kind = access p (in_blobs λ w. Blobs.put w.ctx key body kind)

  abbrev pub pass : Run fl → Run fl
  pass s = record s { shared = p.others s.shared }

  abbrev pub note_timing : String → Time → Run fl → Run fl
  note_timing key started s = record s { diag = stop_timing key started s.shared.now s.diag }

  -- `stop := diag.start(p, key)`, the step, `stop()`
  unfoldable pub timed {ℓ} : {A : Type ℓ} → String → Act (Run fl) A → Act (Run fl) A
  timed key m s =
      let begun = pass s in
      let (res, ended) = m begun in (res, note_timing key begun.shared.now (pass ended))

  acquire_fetched : Reading → Act (Run fl) (Content fl)
  acquire_fetched r = do
    res ← ask p p.fetch r.url
    lift (classify_fetch_status res.status)
    article ← ask p p.extract res
    update_diag (λ d. record d { extraction_mode = article.mode })
    put_blob (raw_key r) res.body res.content_type
    give (extracted article (content_key r) (raw_key r))

  acquire_youtube : (Shared fl → String → Result Article) → Reading → Act (Run fl) (Content fl)
  acquire_youtube extract r = do
    article ← ask p extract (if str_eq r.url_key "" then r.url else r.url_key)
    update_diag (λ d. record d { extraction_mode = article.mode })
    give (extracted article (content_key r) r.raw_key)

  acquire_markdown : Reading → Act (Run fl) (Content fl)
  acquire_markdown r =
      if str_eq r.raw_key ""
      then throw (wrapped "" (sentinel permanent) ": markdown reading has no stored body")
      else do blob ← get_blob r.raw_key; give (imported r blob.payload)

  acquire_web : Option (Shared fl → String → Result Article) → Reading → Act (Run fl) (Content fl)
  unfolding acquire_fetched acquire_youtube
  acquire_web none r = acquire_fetched r
  acquire_web (some extract) r =
      if same_source r.source_kind youtube && p.is_youtube_video_key r.url_key
      then acquire_youtube extract r
      else acquire_fetched r

  unfoldable pub acquire : Reading → Act (Run fl) (Content fl)
  unfolding acquire_web acquire_markdown
  acquire r =
      if same_source r.source_kind markdown then acquire_markdown r else acquire_web p.youtube r

  -- the item of a match, unless its row cannot be loaded or is not ready
  keep_item : Match fl → Result Reading → List (SimilarItem fl) → List (SimilarItem fl)
  keep_item m (err e) items = items
  keep_item m (ok r) items =
      if same_status r.status ready
      then record { id = m.id; score = m.score; title = r.title; url = r.url } ∷ items
      else items

  hydrate_next :
      Match fl → Act (Run fl) (List (SimilarItem fl)) → Act (Run fl) (List (SimilarItem fl))
  unfolding keep_item
  hydrate_next m later = do res ← try (get_by_id m.id); items ← later; give (keep_item m res items)

  unfoldable pub hydrate : List (Match fl) → Act (Run fl) (List (SimilarItem fl))
  unfolding hydrate_next
  hydrate [] = give []
  hydrate (m ∷ ms) = hydrate_next m (hydrate ms)

  unfoldable pub index : Reading → Content fl → Act (Run fl) (Content fl)
  unfolding hydrate
  index r c = do
    vec ← ask p p.embed (embed_text c)
    matches ← access p (in_vectors λ w v. (Similar.query fl w.ctx vec (top_k p.config) r.id v, v))
    similar ← hydrate matches
    update_diag (λ d. record d { similar_count = length similar })
    json ← lift (p.marshal_similar similar)
    put_blob c.content_key c.markdown "text/markdown"
    give (record c { vec = vec; similar_json = json })

  unfoldable pub vector_of : Content fl → List fl.F32 → Act (Run fl) (List fl.F32)
  vector_of c [] = ask p p.embed (embed_text c)
  vector_of c (x ∷ xs) = give (x ∷ xs)

  unfoldable pub upsert_vector : Reading → Content fl → Act (Run fl) (Unit {0})
  unfolding vector_of
  upsert_vector r c = do
    vec ← vector_of c c.vec
    access p (in_vectors λ w. Vector.upsert w.ctx r.id vec r.started_at)

  -- `p.Store.UpdateContent(ctx, r.ID, p.contentFields(r, c, diag, sum))`
  unfoldable pub write_content : Reading → Content fl → Summary → Act (Run fl) (Unit {0})
  write_content r c sum = do
    now ← clock p
    diag ← read_diag
    access p
        (in_store λ w. Updates.update_content w.ctx r.id (content_fields p r c diag sum now) w.now)

  abbrev pub tag_fields : Reading → Time → TagFields
  tag_fields r now = record { now = now; expected_started_at = r.started_at }

  unfoldable pub write_tags : Reading → Summary → Act (Run fl) (Unit {0})
  write_tags r sum = do
    now ← clock p
    access p (in_store λ w. Updates.replace_tags w.ctx r.id sum.tags (tag_fields r now) w.now)

  abbrev pub note_notified : Option Error → Diagnostics → Diagnostics
  note_notified none d = d
  note_notified (some e) d = record d { notify_error = message e }

  abbrev pub deliver : (Shared fl → Email → Option Error) → Email → Act (Run fl) (Option Error)
  deliver send email = access p λ w. (ok (send w email), record w { sent = w.sent ++ (email ∷ []) })

  notify_with : Option (Shared fl → Email → Option Error) → Reading → Summary → Act (Run fl) Bool
  unfolding timed
  notify_with none r sum = give false
  notify_with (some send) r sum = timed "notify" do
    failure ← deliver send (email_of p.config sum r)
    update_diag (note_notified failure)
    give true

  notify_if : Bool → Reading → Summary → Act (Run fl) Bool
  unfolding notify_with
  notify_if true r sum = notify_with p.notifier r sum
  notify_if false r sum = give false

  unfoldable pub notify_best_effort : Reading → Summary → Act (Run fl) Bool
  unfolding notify_if
  notify_best_effort r sum = notify_if p.config.notify_enabled r sum

  unfoldable pub reuse : Reading → Act (Run fl) (Content fl)
  reuse r = do
    blob ← get_blob r.content_key
    update_diag λ d. record d {
      reused = true;
      extraction_mode = r.extraction_mode;
      similar_count = count_items p r.similar_json;
    }
    give (checkpointed r blob.payload)

  -- the diagnostics of the notification
  record_notice : Bool → Reading → Content fl → Summary → Act (Run fl) (Unit {0})
  record_notice true r c sum = best_effort (write_content r c sum)
  record_notice false r c sum = give tt

  unfoldable pub summarize_and_finish : Reading → Content fl → Act (Run fl) (Unit {0})
  unfolding timed write_content write_tags notify_best_effort record_notice
  summarize_and_finish r c = do
    sum ← timed "summarize" (ask p p.summarize (summary_input r c))
    write_content r c sum
    write_tags r sum
    notified ← notify_best_effort r sum
    record_notice notified r c sum

  unfoldable pub resume : Reading → Act (Run fl) (Unit {0})
  unfolding timed reuse upsert_vector summarize_and_finish
  resume r = do
    c ← timed "acquire" (reuse r)
    update_diag (ensure_timing "index")
    timed "vector_upsert" (upsert_vector r c)
    summarize_and_finish r c

  unfoldable pub start : Reading → Act (Run fl) (Unit {0})
  unfolding timed acquire index write_content upsert_vector summarize_and_finish
  start r = do
    acquired ← timed "acquire" (acquire r)
    c ← timed "index" (index r acquired)
    timed "checkpoint" (write_content r c no_summary)
    timed "vector_upsert" (upsert_vector r c)
    summarize_and_finish r c

  -- `if r.ContentKey != ""`
  unfoldable pub run_reading : Reading → Act (Run fl) (Unit {0})
  unfolding resume start
  run_reading r = if str_eq r.content_key "" then start r else resume r

  abbrev pub returned : Result (Unit {0}) × Run fl → RunResult × Run fl
  returned (ok _, s) = (record { outcome = done; after = pos 0; err = none }, s)
  returned (err e, s) = (classify (some e), s)

  -- `RedditGuidance`, after the text of the error that it wraps
  abbrev reddit_guidance : String
  reddit_guidance =
      ": reddit cannot be fetched automatically; export the post or comment and import it as markdown"

  abbrev pub refused : RunResult
  refused = record {
    outcome = fail;
    after = pos 0;
    err = some (wrapped "" (sentinel permanent) reddit_guidance);
  }

  processed : Result Reading × Run fl → RunResult × Run fl
  unfolding run_reading
  processed (err e, s) = (classify (some e), s)
  processed (ok r, s) =
      if same_source r.source_kind reddit
      then (refused, s)
      else returned
          (run_reading r (record s { diag = new_diagnostics (source_text r.source_kind) }))

  unfoldable pub process : String → Run fl → RunResult × Run fl
  unfolding processed
  process id s = processed (get_by_id id s)
