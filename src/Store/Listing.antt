-- ===== src/Store/Listing.antt =====
-- internal/store/memory.go: `ListBatches`, newest first.
use Prim.Native.Nat.{Ordering, compare}
use Prim.Native.String.{compare as str_compare}
use reading_lite_next.Prelude.{
  suc, zero, String, Bool, not, ◌&&◌, ◌||◌, List, [], ◌∷◌, if◌then◌else◌, take, ℤ, pos, negsuc,
}
use reading_lite_next.Prelude.Order.{by, reversed, lexicographic}
use reading_lite_next.Prelude.Sort.{sort_func}
use reading_lite_next.Errors.{Context, ok}
use reading_lite_next.Store.Types.{BatchState, ManualBatch}
use reading_lite_next.Store.Memory.{Op, live}
use reading_lite_next.Store.Batches.{batch_active, same_batch_state}

pub record BatchQuery : Type 0 where
  pub state : BatchState
  pub active_only : Bool
  pub limit : ℤ

-- the batch is not skipped
unfoldable pub is_listed : BatchQuery → ManualBatch → Bool
is_listed q b =
    (same_batch_state q.state BatchState.unset || same_batch_state b.state q.state)
    && (not q.active_only || batch_active b.state)

unfoldable pub listed_batches : BatchQuery → List (String × ManualBatch) → List ManualBatch
listed_batches q [] = []
listed_batches q ((_, b) ∷ rows) =
    let rest = listed_batches q rows in if is_listed q b then b ∷ rest else rest

-- the comparison of `sortBatches`
abbrev pub compare_batches : ManualBatch → ManualBatch → Ordering
compare_batches =
    lexicographic (reversed (by compare (λ b. b.created_at)))
      (reversed (by str_compare (λ b. b.id)))

abbrev pub limited : ℤ → List ManualBatch → List ManualBatch
limited (pos zero) l = l
limited (pos (suc n)) l = take (suc n) l
limited (negsuc n) l = l

unfoldable pub list_batches : Context → BatchQuery → Op (List ManualBatch)
list_batches ctx q =
    live ctx λ m.
      (ok (limited q.limit (sort_func compare_batches (listed_batches q m.batches.entries))), m)
