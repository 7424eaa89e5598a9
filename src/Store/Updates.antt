-- ===== src/Store/Updates.antt =====
-- internal/store/memory.go: the operations of `Memory` that change one reading in place.
use reading_lite_next.Prelude.{
  String, Bool, false, not, ◌||◌, Option, none, some, List, ◌==◌, if◌then◌else◌, get_or,
}
use reading_lite_next.Errors.{Context, conflict, sentinel, Result, ok, err}
use reading_lite_next.Reading.{Time, Status, pending, running, Reading, is_terminal, same_status}
use reading_lite_next.Store.Types.{
  ContentFields, ImportFields, ReprocessFields, TagFields, StatusFields,
}
use reading_lite_next.Store.Memory.{Op, now_or, normalize_tags, update_reading}

next_started : Status → StatusFields → Time → Option Time → Option Time
next_started status fields now old =
    if fields.clear_started_at then none else elim fields.started_at [
      | some t ↦ some t
      | none ↦ if same_status status running then some now else old
    ]

next_finished : Status → StatusFields → Time → Option Time → Option Time
next_finished status fields now old =
    if fields.clear_finished_at then none else elim fields.finished_at [
      | some t ↦ some t
      | none ↦ if is_terminal status then some now else old
    ]

next_error : StatusFields → String → String
next_error fields old = elim fields.error [
  | some text ↦ text
  | none ↦ if fields.clear_error then "" else old
]

unfoldable pub with_status : Status → StatusFields → Time → Reading → Reading
unfolding next_started next_finished next_error is_terminal
with_status status fields now r = record r {
  status = status;
  updated_at = now;
  started_at = next_started status fields now r.started_at;
  finished_at = next_finished status fields now r.finished_at;
  error = next_error fields r.error;
  process_attempts = get_or fields.process_attempts r.process_attempts;
}

unfoldable pub status_change : Status → StatusFields → Time → Reading → Result Reading
unfolding with_status
status_change status fields wall r = ok (with_status status fields (now_or wall fields.now) r)

unfoldable pub update_status : Context → String → Status → StatusFields → Time → Op (Unit {0})
unfolding update_reading
update_status ctx id status fields wall = update_reading ctx id (status_change status fields wall)

same_start : Time → Option Time → Bool
same_start expected none = false
same_start expected (some started) = started == expected

-- the write is fenced to the run that started at the expected time
unfoldable pub fenced_out : Option Time → Reading → Bool
unfolding same_start
fenced_out none r = false
fenced_out (some expected) r =
    not (same_status r.status running) || not (same_start expected r.started_at)

unfoldable pub with_content : ContentFields → Time → Reading → Reading
with_content fields now r = record r {
  title = fields.title;
  author = fields.author;
  site = fields.site;
  lang = fields.lang;
  word_count = fields.word_count;
  extraction_mode = fields.extraction_mode;
  content_key = fields.content_key;
  raw_key = fields.raw_key;
  summary = fields.summary;
  summary_json = fields.summary_json;
  similar_json = fields.similar_json;
  diagnostics_json = fields.diagnostics_json;
  updated_at = now;
}

unfoldable pub content_change : ContentFields → Time → Reading → Result Reading
unfolding with_content
content_change fields wall r =
    if fenced_out fields.expected_started_at r
    then err (sentinel conflict)
    else ok (with_content fields (now_or wall fields.now) r)

unfoldable pub update_content : Context → String → ContentFields → Time → Op (Unit {0})
unfolding update_reading
update_content ctx id fields wall = update_reading ctx id (content_change fields wall)

-- what `UpdateImport` and `Reprocess` reset alike
abbrev pub cleared : String → String → Time → Reading → Reading
cleared title raw_key now r = record r {
  status = pending;
  title = title;
  author = "";
  site = "";
  lang = "";
  word_count = 0;
  extraction_mode = "";
  content_key = "";
  raw_key = raw_key;
  summary = "";
  summary_json = none;
  similar_json = none;
  diagnostics_json = none;
  error = "";
  started_at = none;
  finished_at = none;
  process_attempts = 0;
  updated_at = now;
}

unfoldable pub with_import : ImportFields → Time → Reading → Reading
with_import fields now r = record (cleared fields.title fields.raw_key now r) {
  source_kind = fields.source_kind;
  tags = normalize_tags fields.tags;
}

unfoldable pub import_change : ImportFields → Time → Reading → Result Reading
unfolding with_import
import_change fields wall r = ok (with_import fields (now_or wall fields.now) r)

unfoldable pub update_import : Context → String → ImportFields → Time → Op (Unit {0})
unfolding update_reading
update_import ctx id fields wall = update_reading ctx id (import_change fields wall)

unfoldable pub with_reprocess : ReprocessFields → Time → Reading → Reading
with_reprocess fields now r = cleared fields.title fields.raw_key now r

unfoldable pub reprocess_change : ReprocessFields → Time → Reading → Result Reading
unfolding with_reprocess
reprocess_change fields wall r = ok (with_reprocess fields (now_or wall fields.now) r)

unfoldable pub reprocess : Context → String → ReprocessFields → Time → Op (Unit {0})
unfolding update_reading
reprocess ctx id fields wall = update_reading ctx id (reprocess_change fields wall)

unfoldable pub with_tags : Option (List String) → Time → Reading → Reading
with_tags tags now r = record r { tags = normalize_tags tags; updated_at = now }

unfoldable pub tags_change : Option (List String) → TagFields → Time → Reading → Result Reading
unfolding with_tags
tags_change tags fields wall r =
    if fenced_out fields.expected_started_at r
    then err (sentinel conflict)
    else ok (with_tags tags (now_or wall fields.now) r)

unfoldable pub replace_tags :
    Context → String → Option (List String) → TagFields → Time → Op (Unit {0})
unfolding update_reading
replace_tags ctx id tags fields wall = update_reading ctx id (tags_change tags fields wall)
