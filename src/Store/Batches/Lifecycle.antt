-- ===== src/Store/Batches/Lifecycle.antt =====
-- The batch operations of internal/store/memory.go over whole histories.
use reading_lite_next.Prelude.{List, [], ◌∷◌}
use reading_lite_next.Errors.{Context}
use reading_lite_next.Reading.{Time}
use reading_lite_next.Store.Memory.{Memory, new_memory}
use reading_lite_next.Store.Batches.{JsonCodec}
use reading_lite_next.Store.Batches.Calls.{
  BatchCall, creates, submits, moves, writes, applies, execute_batch, run_batches,
}
use reading_lite_next.Store.Batches.Invariant.{IsBatched, new_memory-IsBatched}
use reading_lite_next.Store.Batches.Preserve.{submit-IsBatched, write-IsBatched, apply-IsBatched}
use reading_lite_next.Store.Batches.Moves.{move-IsBatched}
use reading_lite_next.Store.Batches.Planned.{create-IsBatched}

module _ (json : JsonCodec) where
  execute-IsBatched :
      (ctx : Context) (wall : Time) (c : BatchCall) (m : Memory)
      → IsBatched m
      → IsBatched (execute_batch json ctx wall c m).1
  unfolding execute_batch
  execute-IsBatched ctx wall (creates f) m v = create-IsBatched json ctx f wall m v
  execute-IsBatched ctx wall (submits id f) m v = submit-IsBatched ctx id f wall m v
  execute-IsBatched ctx wall (moves id s f) m v = move-IsBatched ctx id s f wall m v
  execute-IsBatched ctx wall (writes c f) m v = write-IsBatched json ctx c f wall m v
  execute-IsBatched ctx wall (applies c f) m v = apply-IsBatched ctx c f wall m v

  run-IsBatched_from :
      (calls : List (Context × Time × BatchCall)) (m : Memory)
      → IsBatched m
      → IsBatched (run_batches json calls m)
  unfolding run_batches
  run-IsBatched_from [] m v = v
  run-IsBatched_from ((ctx, wall, c) ∷ rest) m v =
      run-IsBatched_from rest _ (execute-IsBatched ctx wall c m v)

  -- After any sequence of batch operations, refused or not: each item is listed by its batch, which
  -- exists; no reading has two active items; and the items of a batch that is applied, canceled or
  -- failed are all inactive.
  pub run_batches-IsBatched :
      (calls : List (Context × Time × BatchCall)) → IsBatched (run_batches json calls new_memory)
  run_batches-IsBatched calls = run-IsBatched_from calls new_memory new_memory-IsBatched
