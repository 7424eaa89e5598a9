-- ===== src/Store/Batches/Moves.antt =====
-- `UpdateBatchState` of internal/store/memory.go and the invariant of the batches.
use reading_lite_next.Prelude.{
  String, ◌≡◌, ◌⊎◌, inl, inr, refl, ◌∙◌, true, false, none, some, List, [], ◌∷◌, arith, eq_iff,
  str_eq, Bool-cases, Option-cases, contains,
}
use reading_lite_next.Dict
use reading_lite_next.Dict.{get-put, get-empty}
use reading_lite_next.Errors.{Context}
use reading_lite_next.Reading.{Time}
use reading_lite_next.Store.Types.{BatchState, BatchItemState, ManualBatch, BatchStateFields}
use reading_lite_next.Store.Memory.{Memory, now_or}
use reading_lite_next.Store.Batches.{
  Items, item_at, custom_ids, item_active, batch_active, same_batch_state, valid_batch_transition,
  terminal_item_state_for_batch,
}
use reading_lite_next.Store.Batches.Shrink.{
  Shrinks, Shrinks-refl, close_items-Shrinks, close_items-inactive,
}
use reading_lite_next.Store.Batches.Update.{
  update_batch_state, moved_batch, move_refused, has_active_item, closed_items,
}
use reading_lite_next.Store.Batches.Invariant.{IsBatched, shrunk-IsBatched, shrunk-closed}
use reading_lite_next.Store.Batches.Preserve.{move_cases, put_batch_kept}

pub moved_batch-state :
    (s : BatchState) (f : BatchStateFields) (now : Time) (b : ManualBatch)
    → (moved_batch s f now b).state ≡ s
unfolding moved_batch
moved_batch-state s f now b = ground arith

has_active_item-inactive :
    (c : String) (cs : List String) (items : Items)
    → has_active_item cs items ≡ false
    → contains c cs ≡ true
    → item_active (item_at c items).state ≡ false
unfolding has_active_item
has_active_item-inactive c [] items none_on has = cc
has_active_item-inactive c (k ∷ cs) items none_on has = elim (Bool-cases (str_eq k c)) [
  | inl hit ↦ rw (← (eq_iff k c).0 hit) (ground arith)
  | inr miss ↦ has_active_item-inactive c cs items (ground arith) (ground arith)
]

terminal-inactive :
    (s : BatchState) (t : BatchItemState)
    → terminal_item_state_for_batch s ≡ some t
    → item_active t ≡ false
unfolding terminal_item_state_for_batch item_active
terminal-inactive s t h = ground arith

closed_items-Shrinks :
    (s : BatchState) (now : Time) (cs : List String) (items : Items)
    → Shrinks items (closed_items (terminal_item_state_for_batch s) now cs items)
closed_items-Shrinks s now cs items = elim (Option-cases (terminal_item_state_for_batch s)) [
  | inl open_still ↦ rw open_still (unfold closed_items in Shrinks-refl items)
  | inr (t, e) ↦
      rw e (unfold closed_items in close_items-Shrinks t now cs items (terminal-inactive s t e))
]

-- A transition into a closed state: either the items are closed with it, or none was active.
closing_cases :
    (id : String) (s : BatchState) (b : ManualBatch) (m : Memory)
    → same_batch_state b.state s ≡ false
    → move_refused id s b m ≡ false
    → batch_active s ≡ false
    → ((t : BatchItemState) × (terminal_item_state_for_batch s ≡ some t))
      ⊎ ((terminal_item_state_for_batch s ≡ none)
          × (has_active_item (custom_ids id m) m.batch_items ≡ false))
unfolding move_refused valid_batch_transition batch_active terminal_item_state_for_batch
closing_cases id BatchState.canceled b m new taken off = inl (BatchItemState.canceled, refl)
closing_cases id BatchState.failed b m new taken off = inl (BatchItemState.failed, refl)
closing_cases id _ b m new taken off = inr (ground arith, ground arith)

-- The items of the batch that is moved into a closed state are inactive afterwards.
moved-closed :
    (id : String) (s : BatchState) (now : Time) (b : ManualBatch) (m : Memory) (c : String)
    → same_batch_state b.state s ≡ false
    → move_refused id s b m ≡ false
    → batch_active s ≡ false
    → contains c (custom_ids id m) ≡ true
    → item_active
        (item_at c (
          closed_items (terminal_item_state_for_batch s) now (custom_ids id m) m.batch_items)).state
      ≡ false
unfolding closed_items
moved-closed id s now b m c new taken off has = elim (closing_cases id s b m new taken off) [
  | inl (t, e) ↦ rw e (close_items-inactive t now _ m.batch_items c (terminal-inactive s t e) has)
  | inr (e, none_on) ↦ rw e (has_active_item-inactive c _ m.batch_items none_on has)
]

-- `b` is moved to a new state.
moved-IsBatched :
    (id : String) (s : BatchState) (f : BatchStateFields) (now : Time) (b : ManualBatch)
    (m : Memory)
    → IsBatched m
    → Dict.get id m.batches ≡ some b
    → same_batch_state b.state s ≡ false
    → move_refused id s b m ≡ false
    → IsBatched (record m {
      batches = Dict.put id (moved_batch s f now b) m.batches;
      batch_items =
          closed_items (terminal_item_state_for_batch s) now (custom_ids id m) m.batch_items;
    })
moved-IsBatched id s f now b m v at new taken =
    shrunk-IsBatched m _ v refl shrinks (put_batch_kept id (moved_batch s f now b) m)
      λ c x b' h hb off.
        let (old, at_old, g) = shrinks c x h in
        let (cs, at_cs, has) = v.listed c old at_old in
        elim (Bool-cases (str_eq id x.batch_id)) [
          | inl hit ↦
              let same : id ≡ x.batch_id = (eq_iff id x.batch_id).0 hit in
              let has_c : contains c (custom_ids id m) ≡ true = rw (same ∙ g.batch_id, at_cs) has in
              let off_s : batch_active s ≡ false = ground (
                arith,
                moved_batch-state s f now b,
                get-put id x.batch_id (moved_batch s f now b) m.batches,
              ) in
              rw h at (moved-closed id s now b m c new taken off_s has_c)
          | inr miss ↦
              shrunk-closed m _ c x b' v shrinks h
                (ground (arith, get-put id x.batch_id (moved_batch s f now b) m.batches)) off
        ]
  where
    shrinks :
        Shrinks m.batch_items
          (closed_items (terminal_item_state_for_batch s) now (custom_ids id m) m.batch_items)
    shrinks = closed_items-Shrinks s now (custom_ids id m) m.batch_items

pub move-IsBatched :
    (ctx : Context) (id : String) (s : BatchState) (f : BatchStateFields) (wall : Time) (m : Memory)
    → IsBatched m
    → IsBatched (update_batch_state ctx id s f wall m).1
move-IsBatched ctx id s f wall m v = move_cases IsBatched ctx id s f wall m v λ b at taken.
    elim (Bool-cases (same_batch_state b.state s)) [
      | inr new ↦ rw new (moved-IsBatched id s f (now_or wall f.now) b m v at new taken)
      | inl same ↦ rw same (
          shrunk-IsBatched m _ v refl (Shrinks-refl m.batch_items)
            (put_batch_kept id (moved_batch s f (now_or wall f.now) b) m)
            λ c x b' h hb off. elim (Bool-cases (str_eq id x.batch_id)) [
              | inl hit ↦ v.closed c x b h (ground (arith, eq_iff id x.batch_id)) (
                  ground (
                    arith,
                    moved_batch-state s f (now_or wall f.now) b,
                    get-put id x.batch_id (moved_batch s f (now_or wall f.now) b) m.batches,
                  ))
              | inr miss ↦
                  v.closed c x b' h
                    (ground (
                      arith,
                      get-put id x.batch_id (moved_batch s f (now_or wall f.now) b) m.batches,
                    ))
                    off
            ])
    ]
