-- ===== src/Reading.antt =====
-- internal/reading/status.go and internal/reading/reading.go: the domain record, its lifecycle and
-- the read-time stale annotation. A `time.Time` is the number of nanoseconds since Go's zero time,
-- so the zero value is 0; a `time.Duration` is an integer of nanoseconds.
pub mod Url
pub mod Lifecycle
pub mod Stale
use Prim.Native.String.{◌++◌}
use reading_lite_next.Prelude.{
  ℕ, ◌-◌, ◌^◌, String, Bool, true, false, ◌&&◌, Option, none, some, List, leb, ltb, ◌==◌,
  if◌then◌else◌, ℤ, pos, negsuc, ltb_ℤ,
}
use reading_lite_next.Prelude.Text.{duration_text}

abbrev pub Time : Type 0
Time = ℕ

abbrev pub Duration : Type 0
Duration = ℤ

-- the nanoseconds from Go's zero time to 1970
abbrev pub unix_epoch : ℕ
unix_epoch = 62135596800000000000

-- `UnixNano`, of a time in its range
abbrev pub unix_nano : Time → ℤ
unix_nano t = if leb unix_epoch t then pos (t - unix_epoch) else negsuc (unix_epoch - t - 1)

-- `unset` is the zero value "" of the string type.
pub data Status : Type 0 where
  unset pending running ready failed : Status

pub data SourceKind : Type 0 where
  unset web youtube reddit markdown : SourceKind

-- `json.RawMessage` and `[]string` are `none` where Go has nil.
abbrev pub Json : Type 0
Json = Option String

pub record Reading : Type 0 where
  pub id : String
  pub url : String
  pub url_key : String
  pub status : Status
  pub source_kind : SourceKind
  pub title : String
  pub author : String
  pub site : String
  pub lang : String
  pub word_count : ℕ
  pub extraction_mode : String
  pub content_key : String
  pub raw_key : String
  pub summary : String
  pub summary_json : Json
  pub similar_json : Json
  pub diagnostics_json : Json
  pub error : String
  pub stale_reason : String
  pub process_attempts : ℕ
  pub tags : Option (List String)
  pub created_at : Time
  pub started_at : Option Time
  pub finished_at : Option Time
  pub updated_at : Time

-- `Reading{}`
abbrev pub zero_reading : Reading
zero_reading = record {
  id = "";
  url = "";
  url_key = "";
  status = Status.unset;
  source_kind = SourceKind.unset;
  title = "";
  author = "";
  site = "";
  lang = "";
  word_count = 0;
  extraction_mode = "";
  content_key = "";
  raw_key = "";
  summary = "";
  summary_json = none;
  similar_json = none;
  diagnostics_json = none;
  error = "";
  stale_reason = "";
  process_attempts = 0;
  tags = none;
  created_at = 0;
  started_at = none;
  finished_at = none;
  updated_at = 0;
}

-- `allowedTransitions` and `CanTransition`
unfoldable pub can_transition : Status → Status → Bool
can_transition pending running = true
can_transition pending failed = true
can_transition running ready = true
can_transition running failed = true
can_transition running pending = true
can_transition ready pending = true
can_transition failed pending = true
can_transition _ _ = false

unfoldable pub is_terminal : Status → Bool
is_terminal ready = true
is_terminal failed = true
is_terminal _ = false

abbrev pub same_status : Status → Status → Bool
same_status Status.unset Status.unset = true
same_status pending pending = true
same_status running running = true
same_status ready ready = true
same_status failed failed = true
same_status _ _ = false

abbrev pub same_source : SourceKind → SourceKind → Bool
same_source SourceKind.unset SourceKind.unset = true
same_source web web = true
same_source youtube youtube = true
same_source reddit reddit = true
same_source markdown markdown = true
same_source _ _ = false

pub record Ttls : Type 0 where
  pub pending : Duration
  pub running : Duration

abbrev pub max_duration : ℕ
max_duration = 2 ^ 63 - 1

abbrev at_most : ℕ → ℕ → ℕ
at_most bound n = if leb n bound then n else bound

-- `t.Sub(u)`, which saturates
unfoldable pub time_sub : Time → Time → Duration
time_sub t u =
    if leb u t
    then pos (at_most max_duration (t - u))
    else negsuc (at_most max_duration (u - t - 1))

unfoldable pub pending_since : Reading → Time
pending_since r = if ltb r.created_at r.updated_at then r.updated_at else r.created_at

-- `ttl > 0 && now.Sub(since) > ttl`
unfoldable pub overdue : Duration → Time → Time → Bool
unfolding time_sub
overdue ttl now since = ltb_ℤ (pos 0) ttl && ltb_ℤ ttl (time_sub now since)

abbrev overdue_start : Duration → Time → Option Time → Bool
overdue_start ttl now none = false
overdue_start ttl now (some started) = overdue ttl now started

abbrev pub pending_reason : Duration → String
pending_reason ttl = "timed out before processing after " ++ duration_text ttl

abbrev pub running_reason : Duration → String
running_reason ttl = "processing stalled after " ++ duration_text ttl

annotate_in : Status → Reading → Time → Ttls → Reading
unfolding pending_since
annotate_in pending r now ttls =
    if overdue ttls.pending now (pending_since r)
    then record r { status = failed; stale_reason = pending_reason ttls.pending }
    else r
annotate_in running r now ttls =
    if overdue_start ttls.running now r.started_at
    then record r { status = failed; stale_reason = running_reason ttls.running }
    else r
annotate_in _ r now ttls = r

unfoldable pub annotate_stale : Reading → Time → Ttls → Reading
unfolding annotate_in
annotate_stale r now ttls = annotate_in r.status r now ttls
