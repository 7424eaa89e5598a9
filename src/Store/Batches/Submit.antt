-- ===== src/Store/Batches/Submit.antt =====
-- internal/store/memory.go: `SubmitBatch`.
use reading_lite_next.Prelude.{
  String, Bool, true, not, ◌&&◌, some, List, [], ◌∷◌, str_eq, if◌then◌else◌, is_some, any,
}
use reading_lite_next.Dict
use reading_lite_next.Errors.{Context, ok, conflict}
use reading_lite_next.Reading.{Time}
use reading_lite_next.Store.Types.{
  BatchState, BatchItemState, ManualBatch, ManualBatchItem, BatchSubmitFields, valid_counts,
  same_counts,
}
use reading_lite_next.Store.Memory.{Memory, Op, fail, live, now_or}
use reading_lite_next.Store.Batches.{
  Items, item_at, custom_ids, same_batch_state, same_item_state, found_batch,
}

-- `batchSubmitEqual`
abbrev pub submit_equal : ManualBatch → BatchSubmitFields → Bool
submit_equal batch fields =
    str_eq batch.remote_id fields.remote_id
    && str_eq batch.results_url fields.results_url
    && same_counts batch.counts fields.counts

-- another batch already has this remote id
abbrev pub remote_taken : String → String → String × ManualBatch → Bool
remote_taken id remote (other_id, other) = not (str_eq other_id id) && str_eq other.remote_id remote

unfoldable pub all_planned : List String → Items → Bool
all_planned [] items = true
all_planned (c ∷ cs) items =
    same_item_state (item_at c items).state BatchItemState.planned && all_planned cs items

abbrev pub submitted_item : Time → ManualBatchItem → ManualBatchItem
submitted_item now item = record item {
  state = BatchItemState.submitted;
  submitted_at = some now;
  updated_at = now;
}

unfoldable pub submit_items : Time → List String → Items → Items
submit_items now [] items = items
submit_items now (c ∷ cs) items =
    submit_items now cs (Dict.put c (submitted_item now (item_at c items)) items)

abbrev pub submitted_batch : BatchSubmitFields → Time → ManualBatch → ManualBatch
submitted_batch fields now batch = record batch {
  state = BatchState.submitted;
  remote_id = fields.remote_id;
  results_url = fields.results_url;
  counts = fields.counts;
  submitted_at = some now;
  updated_at = now;
}

abbrev pub with_submitted : String → BatchSubmitFields → Time → ManualBatch → Memory → Memory
with_submitted id fields now batch m = record m {
  batches = Dict.put id (submitted_batch fields now batch) m.batches;
  batch_items = submit_items now (custom_ids id m) m.batch_items;
}

submit_found : String → BatchSubmitFields → Time → ManualBatch → Op (Unit {0})
submit_found id fields wall batch m =
    if is_some batch.submitted_at
    then (if submit_equal batch fields then (ok tt, m) else fail conflict m)
    else if not (same_batch_state batch.state BatchState.planned)
    then fail conflict m
    else if not (valid_counts fields.counts)
    then fail conflict m
    else if not (str_eq fields.remote_id "")
        && any (remote_taken id fields.remote_id) m.batches.entries
    then fail conflict m
    else if not (all_planned (custom_ids id m) m.batch_items)
    then fail conflict m
    else (ok tt, with_submitted id fields (now_or wall fields.now) batch m)

unfoldable pub submit_batch : Context → String → BatchSubmitFields → Time → Op (Unit {0})
unfolding submit_found
submit_batch ctx id fields wall =
    live ctx λ m. found_batch (submit_found id fields wall) (Dict.get id m.batches) m
