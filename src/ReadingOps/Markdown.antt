-- ===== src/ReadingOps/Markdown.antt =====
-- internal/readingops/service.go: the import of a markdown source, with its staged blob writes.
pub mod Staging
use Prim.Native.String.{◌++◌}
use reading_lite_next.Prelude.{
  ℕ, ◌+◌, ◌-◌, String, Bool, true, false, not, ◌&&◌, Option, List, [], ◌∷◌, leb, str_eq,
  if◌then◌else◌, pos, negsuc, ℤ,
}
use reading_lite_next.Prelude.Text.{trim_space, decimal, decimal_ℤ}
use reading_lite_next.Dict.{Dict}
use reading_lite_next.Errors.{
  Context, background, Error, sentinel, is, not_found, conflict, Result, ok, err,
}
use reading_lite_next.Reading.{
  Time, unix_nano, pending, failed, markdown, Reading, zero_reading, same_status,
}
use reading_lite_next.Store.Types.{ImportFields}
use reading_lite_next.Store.Memory.{Memory, save_reading, get_by_id, get_by_url_key}
use reading_lite_next.Store.Updates.{update_import}
use reading_lite_next.Blobs
use reading_lite_next.Blobs.{Blob}
use reading_lite_next.ReadingOps.{
  Service, Ops, Command, StatusResult, current, queued, invalid, submit_in,
}

pub record MarkdownImport : Type 0 where
  pub url : String
  pub markdown : String
  pub title : String
  pub tags : Option (List String)

-- a key, unless the reading already has it
unfoldable pub unused : Reading → String → Bool
unused r key = not (str_eq key r.raw_key) && not (str_eq key r.content_key)

abbrev pub raw_key_of : Reading → String → String
raw_key_of r suffix = "readings/" ++ (r.id ++ ("/raw-" ++ (suffix ++ ".md")))

first_unused : Reading → List String → String → String
unfolding unused
first_unused r [] last = last
first_unused r (key ∷ keys) last =
    let rest = first_unused r keys last in if unused r key then key else rest

-- `replacementRawKey`, from the id and the time that it draws
unfoldable pub replacement_raw_key : Reading → String → Time → String
unfolding first_unused
replacement_raw_key r base now =
    first_unused r
      (raw_key_of r base ∷ raw_key_of r (base ++ "-1") ∷ raw_key_of r (base ++ "-2") ∷ [])
      (raw_key_of r (base ++ ("-" ++ decimal_ℤ (unix_nano now))))

-- a best-effort delete under `context.Background()`
abbrev pub discard : String → Ops → Ops
discard key s = record s { blobs = (Blobs.delete background key s.blobs).1 }

abbrev pub discard_key : String → Ops → Ops
discard_key key s = if str_eq key "" then s else discard key s

replaced : Service → Reading → String → Result (Unit {0}) × Memory → Command StatusResult
replaced svc existing raw_key (err e, m) s =
    (err e, discard raw_key (record s { world = record s.world { store = m } }))
replaced svc existing raw_key (ok _, m) s =
    let stored = record s { world = record s.world { store = m } } in
    let cleaned = discard_key existing.content_key (discard_key existing.raw_key stored) in
    (
      ok (queued existing.id false),
      record cleaned { world = submit_in svc existing.id cleaned.world },
    )

abbrev pub import_fields : MarkdownImport → String → Time → ImportFields
import_fields req raw_key now = record {
  now = now;
  source_kind = markdown;
  title = req.title;
  raw_key = raw_key;
  tags = req.tags;
}

replace_put :
    Service
    → Context
    → Reading
    → MarkdownImport
    → String
    → Result (Unit {0}) × Dict (Blob String)
    → Command StatusResult
unfolding replaced
replace_put svc ctx existing req raw_key (err e, b) s = (err e, s)
replace_put svc ctx existing req raw_key (ok _, b) s =
    replaced svc existing raw_key
      (update_import ctx existing.id (import_fields req raw_key s.world.now) s.world.now
        s.world.store)
      (record s { blobs = b })

unfoldable pub replace_failed_with_markdown :
    Service → Context → Reading → MarkdownImport → Command StatusResult
unfolding replace_put
replace_failed_with_markdown svc ctx existing req s =
    let raw_key = replacement_raw_key existing (svc.new_id s.issued) s.world.now in
    replace_put svc ctx existing req raw_key
      (Blobs.put ctx raw_key req.markdown "text/markdown" s.blobs)
      (record s { issued = s.issued + 1 })

abbrev pub markdown_row : MarkdownImport → String → String → String → Time → Reading
markdown_row req key id raw_key now = record zero_reading {
  id = id;
  url = trim_space req.url;
  url_key = key;
  status = pending;
  source_kind = markdown;
  title = req.title;
  raw_key = raw_key;
  tags = req.tags;
  created_at = now;
  updated_at = now;
}

lost_race : Error → String → Result Reading → Command StatusResult
lost_race e raw_key (ok got) s = (ok (current got), discard raw_key s)
lost_race e raw_key (err _) s = (err e, discard raw_key s)

imported :
    Service → Context → String → String → String → Result (Unit {0}) × Memory → Command StatusResult
unfolding lost_race
imported svc ctx key id raw_key (ok _, m) s =
    (ok (queued id true), record s { world = submit_in svc id (record s.world { store = m }) })
imported svc ctx key id raw_key (err e, m) s =
    if is e conflict
    then lost_race e raw_key (get_by_url_key ctx key m).0 s
    else (err e, discard raw_key s)

import_put :
    Service
    → Context
    → MarkdownImport
    → String
    → String
    → String
    → Result (Unit {0}) × Dict (Blob String)
    → Command StatusResult
unfolding imported
import_put svc ctx req key id raw_key (err e, b) s = (err e, s)
import_put svc ctx req key id raw_key (ok _, b) s =
    imported svc ctx key id raw_key
      (save_reading ctx (markdown_row req key id raw_key s.world.now) s.world.store)
      (record s { blobs = b })

abbrev new_raw_key : String → String
new_raw_key id = "readings/" ++ (id ++ "/raw.md")

import_id :
    Service → Context → MarkdownImport → String → String → Result Reading → Command StatusResult
unfolding import_put
import_id svc ctx req key id (ok _) s = (err (sentinel conflict), s)
import_id svc ctx req key id (err e) s =
    if is e not_found
    then import_put svc ctx req key id (new_raw_key id)
        (Blobs.put ctx (new_raw_key id) req.markdown "text/markdown" s.blobs) s
    else (err e, s)

import_new : Service → Context → MarkdownImport → String → Command StatusResult
unfolding import_id
import_new svc ctx req key s =
    let id = svc.new_id s.issued in
    import_id svc ctx req key id (get_by_id ctx id s.world.store).0
      (record s { issued = s.issued + 1 })

import_key :
    Service
    → (Ops → Ops)
    → Context
    → MarkdownImport
    → String
    → Result Reading
    → Command StatusResult
unfolding import_new
import_key svc others ctx req key (ok existing) s =
    if same_status existing.status failed
    then replace_failed_with_markdown svc ctx existing req s
    else (ok (current existing), s)
import_key svc others ctx req key (err e) s =
    if is e not_found then import_new svc ctx req key (others s) else (err e, s)

import_parsed :
    Service → (Ops → Ops) → Context → MarkdownImport → Result String → Command StatusResult
unfolding import_key
import_parsed svc others ctx req (err e) s = (err (invalid e), s)
import_parsed svc others ctx req (ok key) s =
    import_key svc others ctx req key (get_by_url_key ctx key s.world.store).0 s

unfoldable pub import_markdown :
    Service → (Ops → Ops) → Context → MarkdownImport → Command StatusResult
unfolding import_parsed
import_markdown svc others ctx req s =
    import_parsed svc others ctx req (svc.rules.url_key req.url) s
