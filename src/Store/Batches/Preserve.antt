-- ===== src/Store/Batches/Preserve.antt =====
-- `SubmitBatch`, `WriteBatchItemResult` and `MarkBatchItemApplied` of internal/store/memory.go, and
-- the invariant of the batches.
use reading_lite_next.Prelude.{
  String, ◌≡◌, inl, inr, refl, true, false, none, some, arith, str_eq, Bool-cases, Option-cases,
}
use reading_lite_next.Dict
use reading_lite_next.Dict.{get-put, get-empty}
use reading_lite_next.Errors.{Context}
use reading_lite_next.Reading.{Time}
use reading_lite_next.Store.Types.{
  BatchState, BatchItemState, ManualBatch, ManualBatchItem, BatchSubmitFields, BatchStateFields,
  BatchItemResultFields, BatchItemApplyFields,
}
use reading_lite_next.Store.Memory.{Memory, now_or}
use reading_lite_next.Store.Batches.{custom_ids, item_active, batch_active, JsonCodec}
use reading_lite_next.Store.Batches.Shrink.{
  Fades, put-Shrinks, submit_items-Shrinks, all_planned-AllActive,
}
use reading_lite_next.Store.Batches.Submit.{
  submit_batch, with_submitted, submitted_batch, all_planned,
}
use reading_lite_next.Store.Batches.Update.{update_batch_state, with_moved, move_refused}
use reading_lite_next.Store.Batches.Item.{
  write_batch_item_result, mark_batch_item_applied, result_item, applied_item,
}
use reading_lite_next.Store.Batches.Invariant.{
  IsBatched, shrunk-IsBatched, shrunk-closed, items-IsBatched,
}

pub submit_cases :
    (P : Memory → Type 0) (ctx : Context) (id : String) (f : BatchSubmitFields) (wall : Time)
    (m : Memory)
    → P m
    → ((b : ManualBatch)
        → Dict.get id m.batches ≡ some b
        → b.state ≡ BatchState.planned
        → all_planned (custom_ids id m) m.batch_items ≡ true
        → P (with_submitted id f (now_or wall f.now) b m))
    → P (submit_batch ctx id f wall m).1
unfolding submit_batch
submit_cases P (some s) id f wall m kept done = kept
submit_cases P none id f wall m kept done = elim (Option-cases (Dict.get id m.batches)) [
  | inl absent ↦ rw (absent, submit_batch) kept
  | inr (b, at) ↦ ground (arith, done b at)
]

pub put_batch_kept :
    (id : String) (b : ManualBatch) (m : Memory) (j : String) (x : ManualBatch)
    → Dict.get j m.batches ≡ some x
    → (x' : ManualBatch) × (Dict.get j (Dict.put id b m.batches) ≡ some x')
put_batch_kept id b m j x at = elim (Bool-cases (str_eq id j)) [
  | inl hit ↦ (b, ground (arith, get-put id j b m.batches))
  | inr miss ↦ (x, ground (arith, get-put id j b m.batches))
]

pub submit-IsBatched :
    (ctx : Context) (id : String) (f : BatchSubmitFields) (wall : Time) (m : Memory)
    → IsBatched m
    → IsBatched (submit_batch ctx id f wall m).1
submit-IsBatched ctx id f wall m v = submit_cases IsBatched ctx id f wall m v λ b at _ planned.
    let now = now_or wall f.now in
    let shrinks = submit_items-Shrinks now _ _ (all_planned-AllActive _ _ planned) in
    shrunk-IsBatched m (with_submitted id f now b m) v refl shrinks
      (put_batch_kept id (submitted_batch f now b) m)
      λ c x b' h hb off. elim (Bool-cases (str_eq id x.batch_id)) [
        | inl hit ↦
            unfold batch_active in
            ground (arith, get-put id x.batch_id (submitted_batch f now b) m.batches)
        | inr miss ↦
            shrunk-closed m _ c x b' v shrinks h
              (ground (arith, get-put id x.batch_id (submitted_batch f now b) m.batches)) off
      ]

pub move_cases :
    (P : Memory → Type 0) (ctx : Context) (id : String) (s : BatchState) (f : BatchStateFields)
    (wall : Time) (m : Memory)
    → P m
    → ((b : ManualBatch)
        → Dict.get id m.batches ≡ some b
        → move_refused id s b m ≡ false
        → P (with_moved id s f (now_or wall f.now) b m))
    → P (update_batch_state ctx id s f wall m).1
unfolding update_batch_state
move_cases P (some e) id s f wall m kept done = kept
move_cases P none id s f wall m kept done = elim (Option-cases (Dict.get id m.batches)) [
  | inl absent ↦ rw (absent, update_batch_state) kept
  | inr (b, at) ↦ ground (arith, done b at)
]

pub write_cases :
    (P : Memory → Type 0) (json : JsonCodec) (ctx : Context) (c : String)
    (f : BatchItemResultFields) (wall : Time) (m : Memory)
    → P m
    → ((x : ManualBatchItem)
        → Dict.get c m.batch_items ≡ some x
        → x.state ≡ BatchItemState.submitted
        → P (record m {
          batch_items = Dict.put c (result_item json f (now_or wall f.now) x) m.batch_items;
        }))
    → P (write_batch_item_result json ctx c f wall m).1
unfolding write_batch_item_result
write_cases P json (some e) c f wall m kept done = kept
write_cases P json none c f wall m kept done = elim (Option-cases (Dict.get c m.batch_items)) [
  | inl absent ↦ ground arith
  | inr (x, at) ↦ ground (arith, done x at)
]

pub apply_cases :
    (P : Memory → Type 0) (ctx : Context) (c : String) (f : BatchItemApplyFields) (wall : Time)
    (m : Memory)
    → P m
    → ((x : ManualBatchItem)
        → Dict.get c m.batch_items ≡ some x
        → x.state ≡ BatchItemState.succeeded
        → P (record m {
          batch_items = Dict.put c (applied_item (now_or wall f.now) x) m.batch_items;
        }))
    → P (mark_batch_item_applied ctx c f wall m).1
unfolding mark_batch_item_applied
apply_cases P (some e) c f wall m kept done = kept
apply_cases P none c f wall m kept done = elim (Option-cases (Dict.get c m.batch_items)) [
  | inl absent ↦ ground arith
  | inr (x, at) ↦ ground (arith, done x at)
]

result-Fades :
    (json : JsonCodec) (f : BatchItemResultFields) (now : Time) (x : ManualBatchItem)
    → x.state ≡ BatchItemState.submitted
    → Fades x (result_item json f now x)
unfolding item_active
result-Fades json f now x e = record {
  batch_id = refl;
  reading_id = refl;
  active = λ h. ground arith;
}

applied-Fades : (now : Time) (x : ManualBatchItem) → Fades x (applied_item now x)
unfolding item_active
applied-Fades now x = record { batch_id = refl; reading_id = refl; active = λ h. cc }

pub write-IsBatched :
    (json : JsonCodec) (ctx : Context) (c : String) (f : BatchItemResultFields) (wall : Time)
    (m : Memory)
    → IsBatched m
    → IsBatched (write_batch_item_result json ctx c f wall m).1
write-IsBatched json ctx c f wall m v = write_cases IsBatched json ctx c f wall m v λ x at sent.
    items-IsBatched m _ v (put-Shrinks c x _ m.batch_items at (result-Fades json f _ x sent))

pub apply-IsBatched :
    (ctx : Context) (c : String) (f : BatchItemApplyFields) (wall : Time) (m : Memory)
    → IsBatched m
    → IsBatched (mark_batch_item_applied ctx c f wall m).1
apply-IsBatched ctx c f wall m v =
    apply_cases IsBatched ctx c f wall m v
      λ x at won. items-IsBatched m _ v (put-Shrinks c x _ m.batch_items at (applied-Fades _ x))
