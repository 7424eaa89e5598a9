-- ===== src/Store/Batches/Invariant.antt =====
-- What holds of the batches of a `Memory` between two operations.
use reading_lite_next.Prelude.{
  String, ◌≡◌, inl, inr, refl, sym, ◌∙◌, true, false, some, List, Bool-cases, contains,
}
use reading_lite_next.Dict
use reading_lite_next.Dict.{get-put, get-empty}
use reading_lite_next.Store.Types.{ManualBatch, ManualBatchItem}
use reading_lite_next.Store.Memory.{Memory, new_memory}
use reading_lite_next.Store.Batches.{Items, item_active, batch_active}
use reading_lite_next.Store.Batches.Shrink.{Shrinks}

pub record IsBatched (m : Memory) : Type 0 where
  pub listed :
      (c : String) (x : ManualBatchItem)
      → Dict.get c m.batch_items ≡ some x
      → (cs : List String) × (Dict.get x.batch_id m.batch_items_by_batch ≡ some cs)
        × (contains c cs ≡ true)
  pub known :
      (id : String) (cs : List String)
      → Dict.get id m.batch_items_by_batch ≡ some cs
      → (b : ManualBatch) × (Dict.get id m.batches ≡ some b)
  pub one_active :
      (c d : String) (x y : ManualBatchItem)
      → Dict.get c m.batch_items ≡ some x
      → Dict.get d m.batch_items ≡ some y
      → item_active x.state ≡ true
      → item_active y.state ≡ true
      → x.reading_id ≡ y.reading_id
      → c ≡ d
  pub closed :
      (c : String) (x : ManualBatchItem) (b : ManualBatch)
      → Dict.get c m.batch_items ≡ some x
      → Dict.get x.batch_id m.batches ≡ some b
      → batch_active b.state ≡ false
      → item_active x.state ≡ false

pub new_memory-IsBatched : IsBatched new_memory
new_memory-IsBatched = record {
  listed = λ c x h. absurd (cc (get-empty {V = ManualBatchItem} c));
  known = λ id cs h. absurd (cc (get-empty {V = List String} id));
  one_active = λ c d x y h. absurd (cc (get-empty {V = ManualBatchItem} c));
  closed = λ c x b h. absurd (cc (get-empty {V = ManualBatchItem} c));
}

-- An operation that shrinks the items keeps the invariant, if it forgets no batch, and closes only
-- batches whose items it leaves inactive.
pub shrunk-IsBatched :
    (m m' : Memory)
    → IsBatched m
    → m'.batch_items_by_batch ≡ m.batch_items_by_batch
    → Shrinks m.batch_items m'.batch_items
    → ((id : String) (b : ManualBatch)
        → Dict.get id m.batches ≡ some b
        → (b' : ManualBatch) × (Dict.get id m'.batches ≡ some b'))
    → ((c : String) (x : ManualBatchItem) (b : ManualBatch)
        → Dict.get c m'.batch_items ≡ some x
        → Dict.get x.batch_id m'.batches ≡ some b
        → batch_active b.state ≡ false
        → item_active x.state ≡ false)
    → IsBatched m'
shrunk-IsBatched m m' v same shrinks keeps closed = record {
  listed = λ c x h.
      let (old, at, f) = shrinks c x h in
      let (cs, at_cs, has) = v.listed c old at in (cs, rw (same, f.batch_id) at_cs, has);
  known = λ id cs h. let (b, at) = v.known id cs (rw same at h) in keeps id b at;
  one_active = λ c d x y hx hy ax ay e.
      let (x0, at_x, fx) = shrinks c x hx in
      let (y0, at_y, fy) = shrinks d y hy in
      v.one_active c d x0 y0 at_x at_y (fx.active ax) (fy.active ay)
        (sym fx.reading_id ∙ e ∙ fy.reading_id);
  closed = closed;
}

-- An item of a batch that was closed before is inactive after the items have shrunk.
pub shrunk-closed :
    (m : Memory) (items : Items) (c : String) (x : ManualBatchItem) (b : ManualBatch)
    → IsBatched m
    → Shrinks m.batch_items items
    → Dict.get c items ≡ some x
    → Dict.get x.batch_id m.batches ≡ some b
    → batch_active b.state ≡ false
    → item_active x.state ≡ false
shrunk-closed m items c x b v shrinks h hb off =
    let (old, at, f) = shrinks c x h in
    let was_off = v.closed c old b at (rw (← f.batch_id) hb) off in
    elim (Bool-cases (item_active x.state)) [ inl on ↦ cc (f.active on) | inr done ↦ done ]

-- The same where the batches do not change.
pub items-IsBatched :
    (m : Memory) (items : Items)
    → IsBatched m
    → Shrinks m.batch_items items
    → IsBatched (record m { batch_items = items })
items-IsBatched m items v shrinks =
    shrunk-IsBatched m _ v refl shrinks (λ id b at. (b, at))
      λ c x b h hb off. shrunk-closed m items c x b v shrinks h hb off
