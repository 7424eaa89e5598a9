-- ===== src/Store/Batches/Calls.antt =====
-- The batch operations of internal/store/memory.go as one type of calls, run one after another.
use reading_lite_next.Prelude.{String, List, [], ◌∷◌}
use reading_lite_next.Errors.{Context}
use reading_lite_next.Reading.{Time}
use reading_lite_next.Store.Types.{
  BatchState, BatchCreateFields, BatchSubmitFields, BatchStateFields, BatchItemResultFields,
  BatchItemApplyFields,
}
use reading_lite_next.Store.Memory.{Op, Memory}
use reading_lite_next.Store.Batches.{JsonCodec}
use reading_lite_next.Store.Batches.Create.{create_planned_batch}
use reading_lite_next.Store.Batches.Submit.{submit_batch}
use reading_lite_next.Store.Batches.Update.{update_batch_state}
use reading_lite_next.Store.Batches.Item.{write_batch_item_result, mark_batch_item_applied}

pub data BatchCall : Type 0 where
  creates : BatchCreateFields → BatchCall
  submits : String → BatchSubmitFields → BatchCall
  moves : String → BatchState → BatchStateFields → BatchCall
  writes : String → BatchItemResultFields → BatchCall
  applies : String → BatchItemApplyFields → BatchCall

module _ (json : JsonCodec) where
  unfoldable pub execute_batch : Context → Time → BatchCall → Op (Unit {0})
  execute_batch ctx wall (creates f) = create_planned_batch json ctx f wall
  execute_batch ctx wall (submits id f) = submit_batch ctx id f wall
  execute_batch ctx wall (moves id s f) = update_batch_state ctx id s f wall
  execute_batch ctx wall (writes c f) = write_batch_item_result json ctx c f wall
  execute_batch ctx wall (applies c f) = mark_batch_item_applied ctx c f wall

  unfoldable pub run_batches : List (Context × Time × BatchCall) → Memory → Memory
  run_batches [] m = m
  run_batches ((ctx, wall, c) ∷ rest) m = run_batches rest (execute_batch ctx wall c m).1
