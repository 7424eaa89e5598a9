-- ===== src/ReadingOps.antt =====
-- internal/readingops/service.go: the commands over the store, the blobs and the dispatcher.
-- `reading.URLKey` and `reading.ClassifySource` are the operations of `UrlRules`. What other
-- threads do between the look-up of a command and its write is `others`.
pub mod Markdown
pub mod Commands
pub mod Idempotent
use Prim.Native.String.{◌++◌}
use reading_lite_next.Prelude.{ℕ, ◌+◌, String, Bool, true, false, Option, none, some, if◌then◌else◌}
use reading_lite_next.Prelude.Text.{trim_space}
use reading_lite_next.Dict.{Dict}
use reading_lite_next.Errors.{
  Context, Error, sentinel, wrapped, message, is, not_found, conflict, invalid_url, Result, ok, err,
}
use reading_lite_next.Reading.{
  Status, pending, failed, SourceKind, web, markdown, Reading, zero_reading, Ttls, same_status,
  same_source,
}
use reading_lite_next.Store.Types.{ReprocessFields}
use reading_lite_next.Store.Memory.{Memory, save_reading, get_by_id, get_by_url_key}
use reading_lite_next.Store.Updates.{reprocess as reprocess_row}
use reading_lite_next.Dispatcher.{Config, submit}
use reading_lite_next.Dispatcher.Handle.{World}
use reading_lite_next.Blobs.{Blob}

pub record UrlRules : Type 0 where
  pub url_key : String → Result String
  pub classify_source : String → SourceKind

-- `Service`, without its ports: those are in the state. `new_id` numbers the calls of `NewID`.
pub record Service : Type 0 where
  pub rules : UrlRules
  pub config : Config
  pub ttls : Ttls
  pub new_id : ℕ → String

pub record Ops : Type 0 where
  pub world : World
  pub blobs : Dict (Blob String)
  pub issued : ℕ  -- the calls of `NewID` so far

pub record StatusResult : Type 0 where
  pub id : String
  pub status : Status
  pub created : Bool

abbrev pub Command {ℓ} : Type ℓ → Type ℓ
Command A = Ops → Result A × Ops

abbrev pub current : Reading → StatusResult
current r = record { id = r.id; status = r.status; created = false }

abbrev pub queued : String → Bool → StatusResult
queued id created = record { id = id; status = pending; created = created }

abbrev pub in_store : Result (Unit {0}) × Memory → World → Result (Unit {0}) × World
in_store (res, m) w = (res, record w { store = m })

abbrev pub reprocess_fields : Reading → World → ReprocessFields
reprocess_fields r w = record {
  now = w.now;
  raw_key = if same_source r.source_kind markdown then r.raw_key else "";
  title = if same_source r.source_kind markdown then r.title else "";
}

reset : Context → String → Result Reading → World → Result (Unit {0}) × World
reset ctx id (err e) w = (err e, w)
reset ctx id (ok r) w = in_store (reprocess_row ctx id (reprocess_fields r w) w.now w.store) w

unfoldable pub mark_pending : Context → String → World → Result (Unit {0}) × World
unfolding reset
mark_pending ctx id w = reset ctx id (get_by_id ctx id w.store).0 w

abbrev pub submit_in : Service → String → World → World
submit_in svc id w = record w { dispatcher = submit svc.config id w.dispatcher }

-- `urlIngestSourceKind`
unfoldable pub url_ingest_source_kind : UrlRules → String → SourceKind
url_ingest_source_kind rules key =
    let kind = rules.classify_source key in if same_source kind markdown then web else kind

abbrev pub after_reset :
    Service → String → Result (Unit {0}) × World → Ops → Result StatusResult × Ops
after_reset svc id (err e, w) s = (err e, record s { world = w })
after_reset svc id (ok _, w) s = (ok (queued id false), record s { world = submit_in svc id w })

-- `fmt.Errorf("%w: %v", reading.ErrInvalidURL, err)`
abbrev pub invalid : Error → Error
invalid e = wrapped "" (sentinel invalid_url) (": " ++ message e)

raced : Error → Result Reading → Command StatusResult
raced e (ok got) s = (ok (current got), s)
raced e (err _) s = (err e, s)

saved :
    Service
    → (Ops → Ops)
    → Context
    → String
    → String
    → Result (Unit {0}) × Memory
    → Command StatusResult
unfolding raced
saved svc others ctx key id (ok _, m) s =
    (ok (queued id true), record s { world = submit_in svc id (record s.world { store = m }) })
saved svc others ctx key id (err e, m) s =
    let later = others (record s { world = record s.world { store = m } }) in
    if is e conflict
    then raced e (get_by_url_key ctx key later.world.store).0 later
    else (err e, record s { world = record s.world { store = m } })

abbrev pub new_row : Service → String → String → String → World → Reading
new_row svc raw key id w = record zero_reading {
  id = id;
  url = trim_space raw;
  url_key = key;
  status = pending;
  source_kind = url_ingest_source_kind svc.rules key;
  created_at = w.now;
  updated_at = w.now;
}

create : Service → (Ops → Ops) → Context → String → String → Command StatusResult
unfolding saved
create svc others ctx raw key s =
    let id = svc.new_id s.issued in
    saved svc others ctx key id (save_reading ctx (new_row svc raw key id s.world) s.world.store)
      (record s { issued = s.issued + 1 })

ingest_key :
    Service → (Ops → Ops) → Context → String → String → Result Reading → Command StatusResult
unfolding create
ingest_key svc others ctx raw key (ok existing) s =
    let later = others s in
    if same_status existing.status failed
    then after_reset svc existing.id (mark_pending ctx existing.id later.world) later
    else (ok (current existing), s)
ingest_key svc others ctx raw key (err e) s =
    if is e not_found then create svc others ctx raw key (others s) else (err e, s)

ingest_parsed : Service → (Ops → Ops) → Context → String → Result String → Command StatusResult
unfolding ingest_key
ingest_parsed svc others ctx raw (err e) s = (err (invalid e), s)
ingest_parsed svc others ctx raw (ok key) s =
    ingest_key svc others ctx raw key (get_by_url_key ctx key s.world.store).0 s

unfoldable pub ingest_url : Service → (Ops → Ops) → Context → String → Command StatusResult
unfolding ingest_parsed
ingest_url svc others ctx raw s = ingest_parsed svc others ctx raw (svc.rules.url_key raw) s
