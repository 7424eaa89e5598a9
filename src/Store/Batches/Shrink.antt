-- ===== src/Store/Batches/Shrink.antt =====
-- How the batch operations of internal/store/memory.go but `CreatePlannedBatch` change the items.
use text.Mathlib.TextPositions.{eq_refl}
use reading_lite_next.Prelude.{
  String, ◌≡◌, inl, inr, refl, ◌∙◌, true, false, some, List, [], ◌∷◌, arith, eq_iff, str_eq,
  Bool-cases, contains, All,
}
use reading_lite_next.Dict
use reading_lite_next.Dict.{get-put}
use reading_lite_next.Reading.{Time}
use reading_lite_next.Store.Types.{BatchItemState, ManualBatchItem}
use reading_lite_next.Store.Batches.{Items, item_at, item_active}
use reading_lite_next.Store.Batches.Submit.{all_planned, submit_items, submitted_item}
use reading_lite_next.Store.Batches.Update.{close_items, closed_item}

-- `new` may stand where `old` stood.
pub record Fades (old new : ManualBatchItem) : Type 0 where
  pub batch_id : new.batch_id ≡ old.batch_id
  pub reading_id : new.reading_id ≡ old.reading_id
  pub active : item_active new.state ≡ true → item_active old.state ≡ true

abbrev pub Shrinks : Items → Items → Type 0
Shrinks items items' =
    (c : String) (new : ManualBatchItem)
    → Dict.get c items' ≡ some new
    → (old : ManualBatchItem) × (Dict.get c items ≡ some old) × Fades old new

pub Fades-refl : (x : ManualBatchItem) → Fades x x
Fades-refl x = record { batch_id = refl; reading_id = refl; active = λ h. h }

pub Shrinks-refl : (items : Items) → Shrinks items items
Shrinks-refl items c new h = (new, h, Fades-refl new)

pub Shrinks-trans : (a b c : Items) → Shrinks a b → Shrinks b c → Shrinks a c
Shrinks-trans a b c p q k new h =
    let (mid, at_mid, g) = q k new h in
    let (old, at_old, f) = p k mid at_mid in
    (
      old,
      at_old,
      record {
        batch_id = g.batch_id ∙ f.batch_id;
        reading_id = g.reading_id ∙ f.reading_id;
        active = λ a. f.active (g.active a);
      },
    )

pub put-Shrinks :
    (c : String) (old new : ManualBatchItem) (items : Items)
    → Dict.get c items ≡ some old
    → Fades old new
    → Shrinks items (Dict.put c new items)
put-Shrinks c old new items at f k x h = elim (Bool-cases (str_eq c k)) [
  | inl hit ↦
      let same : new ≡ x = ground (arith, get-put c k new items) in
      (old, rw (← (eq_iff c k).0 hit) at, rw (← same) f)
  | inr miss ↦ (x, ground (arith, get-put c k new items), Fades-refl x)
]

-- An item that is there: `m.batchItems[c]` of another state than the zero value's.
item_at-active :
    (c : String) (items : Items)
    → item_active (item_at c items).state ≡ true
    → Dict.get c items ≡ some (item_at c items)
unfolding item_active
item_at-active c items h = ground arith

item_at-put_self :
    (c : String) (x : ManualBatchItem) (items : Items) → item_at c (Dict.put c x items) ≡ x
item_at-put_self c x items = simp (get-put, eq_refl)

abbrev pub AllActive : List String → Items → Type 0
AllActive cs items = All (λ c. item_active (item_at c items).state ≡ true) cs

put-AllActive :
    (c : String) (x : ManualBatchItem) (items : Items) (cs : List String)
    → item_active x.state ≡ true
    → AllActive cs items
    → AllActive cs (Dict.put c x items)
put-AllActive c x items [] a h = tt
put-AllActive c x items (k ∷ cs) a (h, rest) =
    (ground (arith, get-put c k x items), put-AllActive c x items cs a rest)

pub all_planned-AllActive :
    (cs : List String) (items : Items) → all_planned cs items ≡ true → AllActive cs items
unfolding all_planned item_active
all_planned-AllActive [] items h = tt
all_planned-AllActive (c ∷ cs) items h =
    (ground arith, all_planned-AllActive cs items (ground arith))

submitted-Fades :
    (now : Time) (item : ManualBatchItem)
    → item_active item.state ≡ true
    → Fades item (submitted_item now item)
submitted-Fades now item h = record { batch_id = refl; reading_id = refl; active = λ _. h }

pub submit_items-Shrinks :
    (now : Time) (cs : List String) (items : Items)
    → AllActive cs items
    → Shrinks items (submit_items now cs items)
unfolding submit_items
submit_items-Shrinks now [] items h = Shrinks-refl items
submit_items-Shrinks now (c ∷ cs) items (h, rest) =
    let item = item_at c items in
    let next = Dict.put c (submitted_item now item) items in
    Shrinks-trans items next _
      (put-Shrinks c item _ items (item_at-active c items h) (submitted-Fades now item h))
      (submit_items-Shrinks now cs next
        (put-AllActive c (submitted_item now item) items cs (unfold item_active in refl) rest))

closed-Fades :
    (state : BatchItemState) (now : Time) (item : ManualBatchItem)
    → item_active state ≡ false
    → Fades item (closed_item state now item)
closed-Fades state now item h = record { batch_id = refl; reading_id = refl; active = λ a. cc }

pub close_items-Shrinks :
    (state : BatchItemState) (now : Time) (cs : List String) (items : Items)
    → item_active state ≡ false
    → Shrinks items (close_items state now cs items)
unfolding close_items
close_items-Shrinks state now [] items off = Shrinks-refl items
close_items-Shrinks state now (c ∷ cs) items off =
    elim (Bool-cases (item_active (item_at c items).state)) [
      | inl on ↦
          let item = item_at c items in
          let next = Dict.put c (closed_item state now item) items in
          rw on (
            Shrinks-trans items next _
              (put-Shrinks c item _ items (item_at-active c items on)
                (closed-Fades state now item off))
              (close_items-Shrinks state now cs next off))
      | inr done ↦ rw done (close_items-Shrinks state now cs items off)
    ]

-- Closing leaves an inactive item inactive, and the listed items are inactive afterwards.
close_items-stays :
    (state : BatchItemState) (now : Time) (cs : List String) (items : Items) (k : String)
    → item_active state ≡ false
    → item_active (item_at k items).state ≡ false
    → item_active (item_at k (close_items state now cs items)).state ≡ false
unfolding close_items
close_items-stays state now [] items k off h = h
close_items-stays state now (c ∷ cs) items k off h =
    close_items-stays state now cs _ k off
      (ground (arith, get-put c k (closed_item state now (item_at c items)) items))

pub close_items-inactive :
    (state : BatchItemState) (now : Time) (cs : List String) (items : Items) (k : String)
    → item_active state ≡ false
    → contains k cs ≡ true
    → item_active (item_at k (close_items state now cs items)).state ≡ false
unfolding close_items
close_items-inactive state now [] items k off h = cc
close_items-inactive state now (c ∷ cs) items k off h = elim (Bool-cases (str_eq c k)) [
  | inl hit ↦
      close_items-stays state now cs _ k off
        (ground (arith, get-put c k (closed_item state now (item_at c items)) items, eq_iff c k))
  | inr miss ↦ close_items-inactive state now cs _ k off (ground arith)
]
