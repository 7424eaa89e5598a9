-- ===== src/Store/Batches/Planned.antt =====
-- `CreatePlannedBatch` of internal/store/memory.go and the invariant of the batches.
use mathlib.Core.List.{Memᴰ}
use mathlib.Core.Bool.{or-true}
use reading_lite_next.Prelude.{
  String, ◌≡◌, ◌⊎◌, inl, inr, refl, sym, ap, ◌∙◌, true, false, none, some, [], map, arith, eq_iff,
  str_eq, Bool-cases, Option-cases,
}
use reading_lite_next.Dict
use reading_lite_next.Dict.{get-put, get-empty}
use reading_lite_next.Dict.Entries.{get-any}
use reading_lite_next.Errors.{Context}
use reading_lite_next.Reading.{Time}
use reading_lite_next.Store.Types.{ManualBatchItem, BatchItemCreateFields, BatchCreateFields}
use reading_lite_next.Store.Memory.{Memory, now_or}
use reading_lite_next.Store.Batches.{Items, JsonCodec, item_active, batch_active}
use reading_lite_next.Store.Batches.Create.{
  create_planned_batch, clash, clashes_stored, holds_reading, planned_batch, with_planned,
  custom_id_of,
}
use reading_lite_next.Store.Batches.PlanItems.{
  IsPlanned, plan_items-cases, mem-contains, clash-stored, clash_distinct,
}
use reading_lite_next.Store.Batches.Invariant.{IsBatched}

-- A stored active item blocks a new item for its reading.
stored-clash :
    (f : BatchItemCreateFields) (items : Items) (c : String) (x : ManualBatchItem)
    → Dict.get c items ≡ some x
    → item_active x.state ≡ true
    → x.reading_id ≡ f.reading_id
    → clashes_stored f items ≡ true
stored-clash f items c x at on e =
    rw
      (get-any (holds_reading f.reading_id) c x items at
        (rw (on, (eq_iff x.reading_id f.reading_id).1 e) refl))
      (or-true _)

-- No stored item belongs to a batch that is not there.
old-batch :
    (m : Memory) (id c : String) (x : ManualBatchItem)
    → IsBatched m
    → Dict.get id m.batches ≡ none
    → Dict.get c m.batch_items ≡ some x
    → str_eq id x.batch_id ≡ false
old-batch m id c x v absent at =
    let (cs, at_cs, has) = v.listed c x at in
    let (b, at_b) = v.known x.batch_id cs at_cs in ground (arith, eq_iff id x.batch_id)

module _ (json : JsonCodec) (fields : BatchCreateFields) (now : Time) (m : Memory) (v : IsBatched m)
    (absent : Dict.get fields.id m.batches ≡ none)
    (fits : clash json.valid m.batch_items [] [] fields.items ≡ false) where
  planned-one_active :
      (c d : String) (x y : ManualBatchItem)
      → Dict.get c (with_planned fields now m).batch_items ≡ some x
      → Dict.get d (with_planned fields now m).batch_items ≡ some y
      → item_active x.state ≡ true
      → item_active y.state ≡ true
      → x.reading_id ≡ y.reading_id
      → c ≡ d
  planned-one_active c d x y hx hy ax ay e = elim (cases c x hx) [
    | inl old_x ↦ elim (cases d y hy) [
      | inl old_y ↦ v.one_active c d x y old_x old_y ax ay e
      | inr (g, at_g, cg, pg) ↦
          cc (
            stored-clash g m.batch_items c x old_x ax (e ∙ ap (λ i. i.reading_id) pg),
            stored g at_g,
          )
    ]
    | inr (f, at_f, cf, pf) ↦ elim (cases d y hy) [
      | inl old_y ↦ cc (
        stored-clash f m.batch_items d y old_y ay (sym e ∙ ap (λ i. i.reading_id) pf),
        stored f at_f,
      )
      | inr (g, at_g, cg, pg) ↦
          let same : f ≡ g =
            clash_distinct json.valid m.batch_items f g [] [] fields.items fits at_f at_g
              (sym (ap (λ i. i.reading_id) pf) ∙ e ∙ ap (λ i. i.reading_id) pg) in
          sym cf ∙ ap (λ i. i.custom_id) same ∙ cg
    ]
  ]
    where
      cases :
          (k : String) (z : ManualBatchItem)
          → Dict.get k (with_planned fields now m).batch_items ≡ some z
          → (Dict.get k m.batch_items ≡ some z) ⊎ IsPlanned fields.id now fields.items k z
      cases = plan_items-cases fields.id now fields.items m.batch_items

      stored :
          (f : BatchItemCreateFields) → Memᴰ f fields.items → clashes_stored f m.batch_items ≡ false
      stored f at = clash-stored json.valid m.batch_items f [] [] fields.items fits at

  planned-IsBatched : IsBatched (with_planned fields now m)
  planned-IsBatched = record {
    listed = λ c x h. elim (plan_items-cases fields.id now fields.items m.batch_items c x h) [
      | inl old ↦
          let (cs, at_cs, has) = v.listed c x old in
          (
            cs,
            ground (
              arith,
              old-batch m fields.id c x v absent old,
              get-put fields.id x.batch_id (map custom_id_of fields.items) m.batch_items_by_batch,
            ),
            has,
          )
      | inr (f, at, e, p) ↦
          let ids = map custom_id_of fields.items in
          (
            ids,
            ground (
              arith,
              ap (λ i. i.batch_id) p,
              eq_iff fields.id x.batch_id,
              get-put fields.id x.batch_id ids m.batch_items_by_batch,
            ),
            rw (← e) (mem-contains f fields.items at),
          )
    ];
    known = λ id cs h. elim (Bool-cases (str_eq fields.id id)) [
      | inl hit ↦ (
        planned_batch fields.id now,
        ground (arith, get-put fields.id id (planned_batch fields.id now) m.batches),
      )
      | inr miss ↦
          let (b, at) = v.known id cs (
            ground (
              arith,
              get-put fields.id id (map custom_id_of fields.items) m.batch_items_by_batch,
            )) in
          (b, ground (arith, get-put fields.id id (planned_batch fields.id now) m.batches))
    ];
    one_active = planned-one_active;
    closed = λ c x b h hb off.
        elim (plan_items-cases fields.id now fields.items m.batch_items c x h) [
          | inl old ↦
              v.closed c x b old
                (ground (
                  arith,
                  old-batch m fields.id c x v absent old,
                  get-put fields.id x.batch_id (planned_batch fields.id now) m.batches,
                ))
                off
          | inr (f, at, e, p) ↦ absurd (
              unfold batch_active in
              ground (
                arith,
                ap (λ i. i.batch_id) p,
                eq_iff fields.id x.batch_id,
                get-put fields.id x.batch_id (planned_batch fields.id now) m.batches,
              ))
        ];
  }

pub create-IsBatched :
    (json : JsonCodec) (ctx : Context) (fields : BatchCreateFields) (wall : Time) (m : Memory)
    → IsBatched m
    → IsBatched (create_planned_batch json ctx fields wall m).1
unfolding create_planned_batch
create-IsBatched json (some s) fields wall m v = v
create-IsBatched json none fields wall m v = elim (Option-cases (Dict.get fields.id m.batches)) [
  | inr (b, at) ↦ rw at v
  | inl absent ↦ elim (Bool-cases (clash json.valid m.batch_items [] [] fields.items)) [
    | inl clashes ↦ rw (absent, clashes) v
    | inr fits ↦
        rw (absent, fits) (planned-IsBatched json fields (now_or wall fields.now) m v absent fits)
  ]
]
