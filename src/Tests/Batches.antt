-- ===== src/Tests/Batches.antt =====
-- The batches of the store, at concrete inputs.
use reading_lite_next.Prelude.{◌≡◌, refl, none, some, List, [], ◌∷◌}
use reading_lite_next.Dict
use reading_lite_next.Errors.{Context}
use reading_lite_next.Reading.{Time}
use reading_lite_next.Store.Types.{ManualBatch, BatchState}
use reading_lite_next.Store.Memory.{new_memory}
use reading_lite_next.Store.Batches.Calls.{BatchCall, creates, submits, execute_batch, run_batches}
use reading_lite_next.Store.Batches.Invariant.{IsBatched}
use reading_lite_next.Store.Batches.Lifecycle.{run_batches-IsBatched}
use reading_lite_next.Store.Batches.States.{Advances}
use reading_lite_next.Store.Batches.States.{execute_batch-AdvancedAt}
use reading_lite_next.Tests.Data.{codec, plan, submission, planned_store, planned_row}

abbrev batch_calls : List (Context × Time × BatchCall)
batch_calls = (none, 3, creates plan) ∷ (none, 4, submits "b1" submission) ∷ []

run_batches-IsBatched_example : IsBatched (run_batches codec batch_calls new_memory)
run_batches-IsBatched_example = run_batches-IsBatched codec batch_calls

execute_batch-AdvancedAt_example :
    (b : ManualBatch) × (Dict.get "b1"
        (execute_batch codec none 4 (submits "b1" submission) planned_store).1.batches
      ≡ some b)
    × Advances BatchState.planned b.state
unfolding Dict.get Dict.lookup
execute_batch-AdvancedAt_example =
    execute_batch-AdvancedAt codec none 4 (submits "b1" submission) planned_store "b1" planned_row
      refl
