-- ===== src/Tests/Data.antt =====
-- Readings, calls, batches and a codec for the concrete inputs.
use text.Mathlib.TextPositions.{eq_refl}
use Prim.Native.Nat.{compare}
use reading_lite_next.Prelude.{
  ℕ, zero, suc, ◌+◌, ◌*◌, ◌/◌, ◌==◌, String, refl, none, some, List, [], ◌∷◌, is_some, str_eq, pos,
  if◌then◌else◌,
}
use reading_lite_next.Errors.{Context, Result, ok, err, sentinel, invalid_url}
use reading_lite_next.Reading.{Time, Reading, zero_reading, running, ready, Ttls, web}
use reading_lite_next.Store.Types.{
  BatchCounts, BatchCreateFields, BatchSubmitFields, ReprocessFields, ContentFields, TagFields,
  BatchItemResultFields, BatchItemState, BatchState, ManualBatch, ManualBatchItem,
}
use reading_lite_next.Store.Memory.{Memory, new_memory}
use reading_lite_next.Store.Calls.{Call, saves}
use reading_lite_next.Store.Batches.{JsonCodec}
use reading_lite_next.Dispatcher.{Config, Dispatcher, new_dispatcher}
use reading_lite_next.Dispatch.{Item}
use reading_lite_next.Dispatcher.Handle.{World}
use reading_lite_next.Prelude.Order.{compare-IsComparison}
use reading_lite_next.Vector.Similar.{Floats}
use reading_lite_next.Dict
use reading_lite_next.ReadingOps.{Service, Ops}

abbrev pub note : Reading
note = record zero_reading {
  id = "n1";
  url = "https://example.com/a";
  url_key = "https://example.com/a";
  status = running;
  title = "A";
  created_at = 5;
  started_at = some 7;
  process_attempts = 1;
}

abbrev pub other_note : Reading
other_note = record zero_reading { id = "n2"; url_key = "https://example.com/b"; status = ready }

abbrev pub history : List (Context × Time × Call)
history = (none, 1, saves note) ∷ (none, 2, saves other_note) ∷ []

abbrev pub one_row : Memory
one_row = record new_memory {
  by_id = record { entries = ("n1", note) ∷ [] };
  by_url_key = record { entries = ("https://example.com/a", "n1") ∷ [] };
}

abbrev pub codec : JsonCodec
codec = record {
  Value = String;
  valid = is_some;
  unmarshal = ok;
  deep_equal = str_eq;
  decodes = λ raw h. (raw, refl);
  equal_refl = λ v. eq_refl v;
}

abbrev pub zero_counts : BatchCounts
zero_counts = record {
  processing = pos 0;
  succeeded = pos 0;
  errored = pos 0;
  canceled = pos 0;
  expired = pos 0;
}

abbrev pub plan : BatchCreateFields
plan = record {
  id = "b1";
  now = 3;
  items = record { reading_id = "n1"; custom_id = "c1"; request_json = some "{}" } ∷ [];
}

abbrev pub submission : BatchSubmitFields
submission = record {
  now = 4;
  remote_id = "r1";
  results_url = "";
  counts = record zero_counts { processing = pos 1 };
}

abbrev pub result : BatchItemResultFields
result = record {
  now = 6;
  state = BatchItemState.succeeded;
  result_json = some "{}";
  error_type = "";
  error_message = "";
}

abbrev pub reset : ReprocessFields
reset = record { now = 9; raw_key = ""; title = "" }

abbrev pub content : ContentFields
content = record {
  now = 10;
  expected_started_at = some 7;
  title = "T";
  author = "";
  site = "";
  lang = "en";
  word_count = 3;
  extraction_mode = "readability";
  content_key = "k";
  raw_key = "";
  summary = "S";
  summary_json = none;
  similar_json = none;
  diagnostics_json = none;
}

abbrev pub tag_fields : TagFields
tag_fields = record { now = 10; expected_started_at = some 7 }

abbrev pub ttls : Ttls
ttls = record { pending = pos 100; running = pos 10 }

abbrev pub config : Config
config = record {
  workers = pos 1;
  max = pos 3;
  buffer = pos 2;
  running_ttl = pos 10;
  force_wait_ttl = pos 0;
}

abbrev key_of : String → Result String
key_of raw = if str_eq raw "" then err (sentinel invalid_url) else ok raw

abbrev pub service : Service
service = record {
  rules = record { url_key = key_of; classify_source = λ key. web };
  config = config;
  ttls = ttls;
  new_id = λ n. "n9";
}

abbrev pub world_of : Memory → World
world_of m = record {
  dispatcher = new_dispatcher;
  store = m;
  timers = [];
  exited_runs = [];
  now = 20;
}

abbrev pub ops_of : Memory → Ops
ops_of m = record { world = world_of m; blobs = Dict.empty; issued = 0 }

abbrev pub planned_row : ManualBatch
planned_row = record {
  id = "b1";
  state = BatchState.planned;
  remote_id = "";
  results_url = "";
  counts = zero_counts;
  created_at = 3;
  submitted_at = none;
  finished_at = none;
  applied_at = none;
  updated_at = 3;
}

abbrev pub submitted_item : ManualBatchItem
submitted_item = record {
  batch_id = "b1";
  reading_id = "n1";
  custom_id = "c1";
  state = BatchItemState.submitted;
  request_json = some "{}";
  result_json = none;
  error_type = "";
  error_message = "";
  created_at = 3;
  submitted_at = some 4;
  finished_at = none;
  applied_at = none;
  updated_at = 4;
}

abbrev pub planned_store : Memory
planned_store = record one_row {
  batches = record { entries = ("b1", planned_row) ∷ [] };
  batch_items = record { entries = ("c1", submitted_item) ∷ [] };
  batch_items_by_batch = record { entries = ("b1", "c1" ∷ []) ∷ [] };
}

abbrev pub item : Item
item = record { id = "n1"; attempt = 1; token = 1 }

-- the dispatcher while `item` runs as run 0
abbrev pub owned : Dispatcher
owned = record {
  inflight = record { entries = ("n1", record { token = 1; cancel = some 0; done = some 0 }) ∷ [] };
  next_token = 1;
  next_run = 1;
  canceled_runs = [];
  ch = [];
}

abbrev pub owned_world : World
owned_world = record {
  dispatcher = owned;
  store = one_row;
  timers = [];
  exited_runs = [];
  now = 20;
}

abbrev pub filled : ℕ → ℕ → List ℕ
filled x zero = []
filled x (suc n) = x ∷ filled x n

-- floating-point numbers that are whole
abbrev pub whole_numbers : Floats
whole_numbers = record {
  F32 = ℕ;
  F64 = ℕ;
  widen = λ x. x;
  nought = 0;
  add = λ x y. x + y;
  mul = λ x y. x * y;
  div = λ x y. x / y;
  sqrt = λ x. x;
  is_nought = λ x. x == 0;
  compare = compare;
  ordered = compare-IsComparison;
}
