-- ===== src/Store/Batches/Create.antt =====
-- internal/store/memory.go: `CreatePlannedBatch`.
use reading_lite_next.Prelude.{
  String, Bool, false, not, ◌&&◌, ◌||◌, none, List, [], ◌∷◌, map, str_eq, if◌then◌else◌, is_some,
  any, contains,
}
use reading_lite_next.Dict
use reading_lite_next.Errors.{Context, ok, conflict}
use reading_lite_next.Reading.{Time, Json}
use reading_lite_next.Store.Types.{
  BatchState, BatchItemState, ManualBatch, ManualBatchItem, BatchItemCreateFields,
  BatchCreateFields,
}
use reading_lite_next.Store.Memory.{Memory, Op, fail, live, now_or}
use reading_lite_next.Store.Batches.{JsonCodec, Items, zero_item, no_counts, item_active}

-- `existing.ReadingID == item.ReadingID && existing.State.active()`
abbrev pub holds_reading : String → String × ManualBatchItem → Bool
holds_reading reading_id (_, item) = str_eq item.reading_id reading_id && item_active item.state

abbrev pub clashes_stored : BatchItemCreateFields → Items → Bool
clashes_stored f items =
    is_some (Dict.get f.custom_id items) || any (holds_reading f.reading_id) items.entries

-- the loop of checks: one of the items cannot be planned
unfoldable pub clash :
    (Json → Bool) → Items → List String → List String → List BatchItemCreateFields → Bool
clash valid items seen_custom seen_reading [] = false
clash valid items seen_custom seen_reading (f ∷ rest) =
    not (valid f.request_json)
    || contains f.custom_id seen_custom
    || contains f.reading_id seen_reading
    || clashes_stored f items
    || clash valid items (f.custom_id ∷ seen_custom) (f.reading_id ∷ seen_reading) rest

abbrev pub planned_item : String → Time → BatchItemCreateFields → ManualBatchItem
planned_item id now f = record zero_item {
  batch_id = id;
  reading_id = f.reading_id;
  custom_id = f.custom_id;
  state = BatchItemState.planned;
  request_json = f.request_json;
  created_at = now;
  updated_at = now;
}

-- the loop of writes
unfoldable pub plan_items : String → Time → List BatchItemCreateFields → Items → Items
plan_items id now [] items = items
plan_items id now (f ∷ rest) items =
    plan_items id now rest (Dict.put f.custom_id (planned_item id now f) items)

abbrev pub planned_batch : String → Time → ManualBatch
planned_batch id now = record {
  id = id;
  state = BatchState.planned;
  remote_id = "";
  results_url = "";
  counts = no_counts;
  created_at = now;
  submitted_at = none;
  finished_at = none;
  applied_at = none;
  updated_at = now;
}

abbrev pub custom_id_of : BatchItemCreateFields → String
custom_id_of f = f.custom_id

abbrev pub with_planned : BatchCreateFields → Time → Memory → Memory
with_planned fields now m = record m {
  batches = Dict.put fields.id (planned_batch fields.id now) m.batches;
  batch_items = plan_items fields.id now fields.items m.batch_items;
  batch_items_by_batch = Dict.put fields.id (map custom_id_of fields.items) m.batch_items_by_batch;
}

unfoldable pub create_planned_batch : JsonCodec → Context → BatchCreateFields → Time → Op (Unit {0})
create_planned_batch json ctx fields wall = live ctx λ m.
    if is_some (Dict.get fields.id m.batches) || clash json.valid m.batch_items [] [] fields.items
    then fail conflict m
    else (ok tt, with_planned fields (now_or wall fields.now) m)
