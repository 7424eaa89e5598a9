-- ===== src/Store/Batches/Update.antt =====
-- internal/store/memory.go: `UpdateBatchState`.
use reading_lite_next.Prelude.{
  String, Bool, false, not, ◌&&◌, ◌||◌, Option, none, some, List, [], ◌∷◌, str_eq, if◌then◌else◌,
  get_or,
}
use reading_lite_next.Dict
use reading_lite_next.Errors.{Context, ok, conflict}
use reading_lite_next.Reading.{Time}
use reading_lite_next.Store.Types.{
  BatchState, BatchItemState, BatchCounts, ManualBatch, ManualBatchItem, BatchStateFields,
  valid_counts,
}
use reading_lite_next.Store.Memory.{Memory, Op, fail, live, now_or}
use reading_lite_next.Store.Batches.{
  Items, item_at, custom_ids, item_active, same_batch_state, valid_batch_transition,
  terminal_item_state_for_batch, found_batch,
}

-- `hasActiveBatchItemLocked`, over the batch's custom ids
unfoldable pub has_active_item : List String → Items → Bool
has_active_item [] items = false
has_active_item (c ∷ cs) items = item_active (item_at c items).state || has_active_item cs items

abbrev bad_counts : Option BatchCounts → Bool
bad_counts none = false
bad_counts (some counts) = not (valid_counts counts)

-- the `switch` that stamps the batch on a change of state
stamped : BatchState → Time → ManualBatch → ManualBatch
stamped BatchState.results_ready now batch = record batch { finished_at = some now }
stamped BatchState.applied now batch = record batch {
  finished_at = some (get_or batch.finished_at now);
  applied_at = some now;
}
stamped BatchState.canceled now batch = record batch { finished_at = some now }
stamped BatchState.failed now batch = record batch { finished_at = some now }
stamped _ now batch = batch

-- the fields that are recorded whether the state changes or not
abbrev noted : BatchStateFields → ManualBatch → ManualBatch
noted fields batch = record batch {
  results_url =
      if not (str_eq fields.results_url "") then fields.results_url else batch.results_url;
  counts = get_or fields.counts batch.counts;
}

unfoldable pub moved_batch : BatchState → BatchStateFields → Time → ManualBatch → ManualBatch
unfolding stamped
moved_batch state fields now batch =
    let kept = noted fields batch in
    let next =
      if same_batch_state batch.state state
      then kept
      else stamped state now (record kept { state = state }) in
    record next { updated_at = now }

abbrev pub closed_item : BatchItemState → Time → ManualBatchItem → ManualBatchItem
closed_item state now item = record item { state = state; finished_at = some now; updated_at = now }

-- the loop over the batch's items that are still active
unfoldable pub close_items : BatchItemState → Time → List String → Items → Items
close_items state now [] items = items
close_items state now (c ∷ cs) items = close_items state now cs (
    if item_active (item_at c items).state
    then Dict.put c (closed_item state now (item_at c items)) items
    else items)

unfoldable pub closed_items : Option BatchItemState → Time → List String → Items → Items
closed_items none now cs items = items
closed_items (some state) now cs items = close_items state now cs items

abbrev pub with_moved :
    String → BatchState → BatchStateFields → Time → ManualBatch → Memory → Memory
with_moved id state fields now batch m = record m {
  batches = Dict.put id (moved_batch state fields now batch) m.batches;
  batch_items =
      if same_batch_state batch.state state
      then m.batch_items
      else closed_items (terminal_item_state_for_batch state) now (custom_ids id m) m.batch_items;
}

-- the transition is refused
unfoldable pub move_refused : String → BatchState → ManualBatch → Memory → Bool
move_refused id state batch m =
    not (same_batch_state batch.state state)
    && ((same_batch_state state BatchState.applied
          && has_active_item (custom_ids id m) m.batch_items)
        || not (valid_batch_transition batch.state state))

move_found : String → BatchState → BatchStateFields → Time → ManualBatch → Op (Unit {0})
move_found id state fields wall batch m =
    if bad_counts fields.counts
    then fail conflict m
    else if move_refused id state batch m
    then fail conflict m
    else (ok tt, with_moved id state fields (now_or wall fields.now) batch m)

unfoldable pub update_batch_state :
    Context → String → BatchState → BatchStateFields → Time → Op (Unit {0})
unfolding move_found
update_batch_state ctx id state fields wall =
    live ctx λ m. found_batch (move_found id state fields wall) (Dict.get id m.batches) m
