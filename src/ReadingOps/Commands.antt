-- ===== src/ReadingOps/Commands.antt =====
-- internal/readingops/service.go: the bookmark import and the reprocess command.
use reading_lite_next.Prelude.{String, Bool, false, not, ◌&&◌, ◌||◌, List, [], ◌∷◌, if◌then◌else◌}
use reading_lite_next.Errors.{Context, background, is, invalid_url, Result, ok, err}
use reading_lite_next.Reading.{pending, running, failed, Reading, same_status, annotate_stale}
use reading_lite_next.Store.Memory.{get_by_id}
use reading_lite_next.Dispatcher.{Waited}
use reading_lite_next.Dispatcher.Handle.{World, force_submit_after}
use reading_lite_next.ReadingOps.{
  Service, Ops, Command, StatusResult, queued, mark_pending, after_reset, ingest_url,
}

pub record BookmarkResult : Type 0 where
  pub url : String
  pub id : String
  pub result : String

abbrev bookmark : String → StatusResult → BookmarkResult
bookmark raw res = record {
  url = raw;
  id = res.id;
  result = if res.created then "created" else "existing";
}

-- one turn of the loop: the entry of the URL, or the error that ends the import
pub bookmark_entry : String → Result StatusResult → Result BookmarkResult
bookmark_entry raw (ok res) = ok (bookmark raw res)
bookmark_entry raw (err e) =
    if is e invalid_url then ok (record { url = raw; id = ""; result = "invalid" }) else err e

abbrev with_entry :
    BookmarkResult → Result (List BookmarkResult) × Ops → Result (List BookmarkResult) × Ops
with_entry b (ok bs, s) = (ok (b ∷ bs), s)
with_entry b (err e, s) = (err e, s)

abbrev continue :
    Result BookmarkResult → Command (List BookmarkResult) → Command (List BookmarkResult)
continue (err e) rest s = (err e, s)
continue (ok b) rest s = with_entry b (rest s)

unfoldable pub import_bookmarks :
    Service → (Ops → Ops) → Context → List String → Command (List BookmarkResult)
unfolding bookmark_entry
import_bookmarks svc others ctx [] s = (ok [], s)
import_bookmarks svc others ctx (raw ∷ urls) s =
    let step = ingest_url svc others ctx raw s in
    continue (bookmark_entry raw step.0) (import_bookmarks svc others ctx urls) step.1

abbrev forced_reset : String → Result (Unit {0}) × World → Ops → Result StatusResult × Ops
forced_reset id (err e, w) s = (err e, record s { world = w })
forced_reset id (ok _, w) s = (ok (queued id false), record s { world = w })

unfoldable pub in_progress : Reading → Bool
in_progress r = same_status r.status pending || same_status r.status running

unfoldable pub stale : Service → Ops → Reading → Bool
stale svc s r = same_status (annotate_stale r s.world.now svc.ttls).status failed

reprocess_found :
    Service → (World → World) → Waited → Context → String → Result Reading → Command StatusResult
unfolding in_progress stale
reprocess_found svc others waited ctx id (err e) s = (err e, s)
reprocess_found svc others waited ctx id (ok got) s =
    if in_progress got && not (stale svc s got)
    then (ok (record { id = id; status = got.status; created = false }), s)
    else if in_progress got && stale svc s got
    then forced_reset id
        (force_submit_after svc.config others waited background id (mark_pending background id)
          s.world)
        s
    else after_reset svc id (mark_pending ctx id s.world) s

-- `Reprocess`: the forced recovery runs under `WithoutCancel`
unfoldable pub reprocess :
    Service → (World → World) → Waited → Context → String → Command StatusResult
unfolding reprocess_found
reprocess svc others waited ctx id s =
    reprocess_found svc others waited ctx id (get_by_id ctx id s.world.store).0 s
