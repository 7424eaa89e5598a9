-- ===== src/Store/Batches/Results.antt =====
-- A repeated `WriteBatchItemResult` of internal/store/memory.go.
use text.Mathlib.TextPositions.{eq_refl}
use reading_lite_next.Prelude.{
  String, ◌≡◌, inl, inr, refl, true, none, some, arith, eq_iff, str_eq, Bool-cases, Option-cases,
}
use reading_lite_next.Dict
use reading_lite_next.Dict.{get-put}
use reading_lite_next.Errors.{background, ok}
use reading_lite_next.Reading.{Time, Json}
use reading_lite_next.Store.Types.{BatchItemState, ManualBatchItem, BatchItemResultFields}
use reading_lite_next.Store.Memory.{Memory, now_or}
use reading_lite_next.Store.Batches.{JsonCodec, same_item_state}
use reading_lite_next.Store.Batches.Item.{
  write_batch_item_result, json_raw_equal, result_equal, result_item,
}

module _ (json : JsonCodec) where
  json_raw_equal_refl : (raw : Json) → json.valid raw ≡ true → json_raw_equal json raw raw ≡ ok true
  unfolding json_raw_equal
  json_raw_equal_refl none h = refl
  json_raw_equal_refl (some raw) h =
      let (v, e) = json.decodes raw h in
      elim (Bool-cases (str_eq raw "")) [
        | inl blank ↦ rw blank refl
        | inr text ↦ rw (text, e, json.equal_refl v) refl
      ]

  same_item_state_refl : (s : BatchItemState) → same_item_state s s ≡ true
  same_item_state_refl s = ground arith

  result_equal-result_item :
      (f : BatchItemResultFields) (now : Time) (x : ManualBatchItem)
      → json.valid f.result_json ≡ true
      → result_equal json (result_item json f now x) f ≡ ok true
  unfolding result_equal
  result_equal-result_item f now x h =
      rw (same_item_state_refl f.state, eq_refl f.error_type, eq_refl f.error_message)
        (unfold json_raw_equal in json_raw_equal_refl f.result_json h)

  -- A result that was accepted is accepted again, at any later time, and then nothing changes.
  pub write_batch_item_result_repeat :
      (c : String) (f : BatchItemResultFields) (wall later : Time) (m m' : Memory)
      → write_batch_item_result json background c f wall m ≡ (ok tt, m')
      → write_batch_item_result json background c f later m' ≡ (ok tt, m')
  unfolding write_batch_item_result
  write_batch_item_result_repeat c f wall later m m' h =
      elim (Option-cases (Dict.get c m.batch_items)) [
        | inl absent ↦ ground arith
        | inr (x, at) ↦
            let y = result_item json f (now_or wall f.now) x in
            ground (
              arith,
              get-put c c y m.batch_items,
              eq_iff c c,
              result_equal-result_item f (now_or wall f.now) x,
            )
      ]
