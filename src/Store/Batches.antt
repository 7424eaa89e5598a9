-- ===== src/Store/Batches.antt =====
-- internal/store/memory.go: the manual batch operations of `Memory`. `encoding/json` is the
-- parameter `json`: which payloads are valid, what they decode to, and `reflect.DeepEqual` on the
-- decoded values.
pub mod Create
pub mod Submit
pub mod Update
pub mod Item
pub mod Calls
pub mod Shrink
pub mod Invariant
pub mod Preserve
pub mod Moves
pub mod PlanItems
pub mod Planned
pub mod States
pub mod Lifecycle
pub mod Results
use reading_lite_next.Prelude.{
  String, Bool, true, false, not, ◌&&◌, ◌||◌, Option, none, some, List, [], ◌∷◌, map, str_eq,
  if◌then◌else◌, is_some, get_or, any, contains, pos, ◌≡◌,
}
use reading_lite_next.Dict
use reading_lite_next.Dict.{Dict}
use reading_lite_next.Errors.{Context, Error, Result, ok, err, sentinel, not_found, conflict}
use reading_lite_next.Reading.{Time, Json}
use reading_lite_next.Store.Types.{
  BatchState, BatchItemState, BatchCounts, ManualBatch, ManualBatchItem, BatchItemCreateFields,
  BatchCreateFields, BatchSubmitFields, BatchStateFields, BatchItemResultFields,
  BatchItemApplyFields, valid_counts, same_counts,
}
use reading_lite_next.Store.Memory.{Memory, Op, fail, live, now_or}

-- `json.Valid` and `json.Unmarshal` into `any`, and `reflect.DeepEqual` on what they give: a valid
-- payload decodes, and a decoded value equals itself.
pub record JsonCodec : Type 1 where
  pub Value : Type 0
  pub valid : Json → Bool
  pub unmarshal : String → Result Value
  pub deep_equal : Value → Value → Bool
  pub decodes : (raw : String) → valid (some raw) ≡ true → (v : Value) × (unmarshal raw ≡ ok v)
  pub equal_refl : (v : Value) → deep_equal v v ≡ true

-- `BatchState.active`
unfoldable pub batch_active : BatchState → Bool
batch_active BatchState.planned = true
batch_active BatchState.submitted = true
batch_active BatchState.results_ready = true
batch_active _ = false

-- `BatchItemState.active`
unfoldable pub item_active : BatchItemState → Bool
item_active BatchItemState.planned = true
item_active BatchItemState.submitted = true
item_active BatchItemState.succeeded = true
item_active _ = false

-- `BatchItemState.resultState`
unfoldable pub result_state : BatchItemState → Bool
result_state BatchItemState.succeeded = true
result_state BatchItemState.errored = true
result_state BatchItemState.canceled = true
result_state BatchItemState.expired = true
result_state _ = false

unfoldable pub valid_batch_transition : BatchState → BatchState → Bool
valid_batch_transition BatchState.planned BatchState.canceled = true
valid_batch_transition BatchState.planned BatchState.failed = true
valid_batch_transition BatchState.submitted BatchState.results_ready = true
valid_batch_transition BatchState.submitted BatchState.canceled = true
valid_batch_transition BatchState.submitted BatchState.failed = true
valid_batch_transition BatchState.results_ready BatchState.applied = true
valid_batch_transition BatchState.results_ready BatchState.canceled = true
valid_batch_transition BatchState.results_ready BatchState.failed = true
valid_batch_transition _ _ = false

unfoldable pub terminal_item_state_for_batch : BatchState → Option BatchItemState
terminal_item_state_for_batch BatchState.canceled = some BatchItemState.canceled
terminal_item_state_for_batch BatchState.failed = some BatchItemState.failed
terminal_item_state_for_batch _ = none

abbrev pub same_batch_state : BatchState → BatchState → Bool
same_batch_state BatchState.unset BatchState.unset = true
same_batch_state BatchState.planned BatchState.planned = true
same_batch_state BatchState.submitted BatchState.submitted = true
same_batch_state BatchState.results_ready BatchState.results_ready = true
same_batch_state BatchState.applied BatchState.applied = true
same_batch_state BatchState.canceled BatchState.canceled = true
same_batch_state BatchState.failed BatchState.failed = true
same_batch_state _ _ = false

abbrev pub same_item_state : BatchItemState → BatchItemState → Bool
same_item_state BatchItemState.unset BatchItemState.unset = true
same_item_state BatchItemState.planned BatchItemState.planned = true
same_item_state BatchItemState.submitted BatchItemState.submitted = true
same_item_state BatchItemState.succeeded BatchItemState.succeeded = true
same_item_state BatchItemState.errored BatchItemState.errored = true
same_item_state BatchItemState.canceled BatchItemState.canceled = true
same_item_state BatchItemState.expired BatchItemState.expired = true
same_item_state BatchItemState.applied BatchItemState.applied = true
same_item_state BatchItemState.failed BatchItemState.failed = true
same_item_state _ _ = false

abbrev pub no_counts : BatchCounts
no_counts = record {
  processing = pos 0;
  succeeded = pos 0;
  errored = pos 0;
  canceled = pos 0;
  expired = pos 0;
}

-- `ManualBatchItem{}`, what a map gives for a key that it lacks
abbrev pub zero_item : ManualBatchItem
zero_item = record {
  batch_id = "";
  reading_id = "";
  custom_id = "";
  state = BatchItemState.unset;
  request_json = none;
  result_json = none;
  error_type = "";
  error_message = "";
  created_at = 0;
  submitted_at = none;
  finished_at = none;
  applied_at = none;
  updated_at = 0;
}

abbrev pub Items : Type 0
Items = Dict ManualBatchItem

-- `m.batchItems[customID]`
abbrev pub item_at : String → Items → ManualBatchItem
item_at c items = get_or (Dict.get c items) zero_item

-- `m.batchItemsByBatch[id]`
abbrev pub custom_ids : String → Memory → List String
custom_ids id m = get_or (Dict.get id m.batch_items_by_batch) []

abbrev pub found_batch : (ManualBatch → Op (Unit {0})) → Option ManualBatch → Op (Unit {0})
found_batch use_it none m = fail not_found m
found_batch use_it (some batch) m = use_it batch m

abbrev pub found_item : (ManualBatchItem → Op (Unit {0})) → Option ManualBatchItem → Op (Unit {0})
found_item use_it none m = fail not_found m
found_item use_it (some item) m = use_it item m
