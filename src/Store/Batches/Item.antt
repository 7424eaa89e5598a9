-- ===== src/Store/Batches/Item.antt =====
-- internal/store/memory.go: `WriteBatchItemResult` and `MarkBatchItemApplied`, the batch getters,
-- and `batchItemResultEqualJSON` and `jsonRawEqual` of internal/store/postgres.go.
use reading_lite_next.Prelude.{
  String, Bool, true, false, not, ◌&&◌, ◌||◌, Option, none, some, List, map, str_eq, if◌then◌else◌,
  is_some,
}
use reading_lite_next.Dict
use reading_lite_next.Errors.{Context, Result, ok, err, not_found, conflict}
use reading_lite_next.Reading.{Time, Json}
use reading_lite_next.Store.Types.{
  BatchItemState, ManualBatch, ManualBatchItem, BatchItemResultFields, BatchItemApplyFields,
}
use reading_lite_next.Store.Memory.{Op, fail, live, now_or}
use reading_lite_next.Store.Batches.{JsonCodec, item_at, result_state, same_item_state, found_item}

abbrev is_empty : Json → Bool
is_empty none = true
is_empty (some raw) = str_eq raw ""

abbrev raw_text : Json → String
raw_text none = ""
raw_text (some raw) = raw

write_to : String → (ManualBatchItem → ManualBatchItem) → ManualBatchItem → Op (Unit {0})
write_to c change item m =
    (ok tt, record m { batch_items = Dict.put c (change item) m.batch_items })

module _ (json : JsonCodec) where
  open json use {Value, valid, unmarshal, deep_equal}

  decoded_equal : Result Value → Result Value → Result Bool
  decoded_equal (err e) b = err e
  decoded_equal (ok a) (err e) = err e
  decoded_equal (ok a) (ok b) = ok (deep_equal a b)

  -- `jsonRawEqual`
  unfoldable pub json_raw_equal : Json → Json → Result Bool
  unfolding decoded_equal
  json_raw_equal a b =
      if is_empty a || is_empty b
      then ok (is_empty a && is_empty b)
      else decoded_equal (unmarshal (raw_text a)) (unmarshal (raw_text b))

  -- `batchItemResultEqualJSON`
  unfoldable pub result_equal : ManualBatchItem → BatchItemResultFields → Result Bool
  unfolding json_raw_equal
  result_equal item fields =
      if not (same_item_state item.state fields.state)
        || not (str_eq item.error_type fields.error_type)
        || not (str_eq item.error_message fields.error_message)
      then ok false
      else json_raw_equal item.result_json fields.result_json

  abbrev pub result_item : BatchItemResultFields → Time → ManualBatchItem → ManualBatchItem
  result_item fields now item = record item {
    state = fields.state;
    result_json = fields.result_json;
    error_type = fields.error_type;
    error_message = fields.error_message;
    finished_at = some now;
    updated_at = now;
  }

  repeated : Result Bool → Op (Unit {0})
  repeated (err e) m = (err e, m)
  repeated (ok true) m = (ok tt, m)
  repeated (ok false) m = fail conflict m

  write_found : String → BatchItemResultFields → Time → ManualBatchItem → Op (Unit {0})
  unfolding write_to repeated
  write_found c fields wall item m =
      if is_some item.finished_at
      then repeated (result_equal item fields) m
      else if not (same_item_state item.state BatchItemState.submitted)
      then fail conflict m
      else if not (valid fields.result_json)
      then fail conflict m
      else write_to c (result_item fields (now_or wall fields.now)) item m

  unfoldable pub write_batch_item_result :
      Context → String → BatchItemResultFields → Time → Op (Unit {0})
  unfolding write_found
  write_batch_item_result ctx c fields wall = live ctx λ m.
      if not (result_state fields.state)
      then fail conflict m
      else found_item (write_found c fields wall) (Dict.get c m.batch_items) m

abbrev pub applied_item : Time → ManualBatchItem → ManualBatchItem
applied_item now item = record item {
  state = BatchItemState.applied;
  applied_at = some now;
  updated_at = now;
}

apply_found : String → BatchItemApplyFields → Time → ManualBatchItem → Op (Unit {0})
unfolding write_to
apply_found c fields wall item m =
    if same_item_state item.state BatchItemState.applied
    then (ok tt, m)
    else if not (same_item_state item.state BatchItemState.succeeded)
    then fail conflict m
    else write_to c (applied_item (now_or wall fields.now)) item m

unfoldable pub mark_batch_item_applied :
    Context → String → BatchItemApplyFields → Time → Op (Unit {0})
unfolding apply_found
mark_batch_item_applied ctx c fields wall =
    live ctx λ m. found_item (apply_found c fields wall) (Dict.get c m.batch_items) m

found {ℓ} : {A : Type ℓ} → Option A → Op A
found none m = fail not_found m
found (some a) m = (ok a, m)

unfoldable pub get_batch : Context → String → Op ManualBatch
unfolding found
get_batch ctx id = live ctx λ m. found (Dict.get id m.batches) m

unfoldable pub get_batch_item_by_custom_id : Context → String → Op ManualBatchItem
unfolding found
get_batch_item_by_custom_id ctx c = live ctx λ m. found (Dict.get c m.batch_items) m

listed : Option (List String) → Op (List ManualBatchItem)
listed none m = fail not_found m
listed (some cs) m = (ok (map (λ c. item_at c m.batch_items) cs), m)

unfoldable pub list_batch_items : Context → String → Op (List ManualBatchItem)
unfolding listed
list_batch_items ctx id = live ctx λ m. listed (Dict.get id m.batch_items_by_batch) m
