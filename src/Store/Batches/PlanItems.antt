-- ===== src/Store/Batches/PlanItems.antt =====
-- The items that `CreatePlannedBatch` of internal/store/memory.go writes, and its checks.
use mathlib.Core.List.{Memᴰ}
use reading_lite_next.Prelude.{
  String, ◌≡◌, ◌⊎◌, inl, inr, refl, sym, ap, ◌∙◌, Bool, true, false, some, List, [], ◌∷◌, map,
  arith, eq_iff, str_eq, Bool-cases, contains,
}
use reading_lite_next.Dict
use reading_lite_next.Dict.{get-put, get-empty}
use reading_lite_next.Reading.{Time, Json}
use reading_lite_next.Store.Types.{ManualBatchItem, BatchItemCreateFields}
use reading_lite_next.Store.Batches.{Items}
use reading_lite_next.Store.Batches.Create.{
  clash, clashes_stored, plan_items, planned_item, custom_id_of,
}

-- `x`, stored under `c`, is one of the new items.
abbrev pub IsPlanned :
    String → Time → List BatchItemCreateFields → String → ManualBatchItem → Type 0
IsPlanned id now fs c x =
    (f : BatchItemCreateFields) × Memᴰ f fs × (f.custom_id ≡ c) × (x ≡ planned_item id now f)

pub plan_items-cases :
    (id : String) (now : Time) (fs : List BatchItemCreateFields) (items : Items) (c : String)
    (x : ManualBatchItem)
    → Dict.get c (plan_items id now fs items) ≡ some x
    → (Dict.get c items ≡ some x) ⊎ IsPlanned id now fs c x
unfolding plan_items
plan_items-cases id now [] items c x h = inl h
plan_items-cases id now (f ∷ fs) items c x h =
    elim (plan_items-cases id now fs (Dict.put f.custom_id (planned_item id now f) items) c x h) [
      | inr (g, at, e, p) ↦ inr (g, Memᴰ.tail at, e, p)
      | inl old ↦ elim (Bool-cases (str_eq f.custom_id c)) [
        | inl hit ↦ inr (
          f,
          Memᴰ.head refl,
          (eq_iff f.custom_id c).0 hit,
          ground (arith, get-put f.custom_id c (planned_item id now f) items),
        )
        | inr miss ↦ inl (ground (arith, get-put f.custom_id c (planned_item id now f) items))
      ]
    ]

pub mem-contains :
    (f : BatchItemCreateFields) (fs : List BatchItemCreateFields)
    → Memᴰ f fs
    → contains f.custom_id (map custom_id_of fs) ≡ true
mem-contains f [] m = elim m [ ]
mem-contains f (g ∷ fs) (Memᴰ.head e) =
    ground (arith, ap (λ h. h.custom_id) e, eq_iff g.custom_id f.custom_id)
mem-contains f (g ∷ fs) (Memᴰ.tail m) = ground (arith, mem-contains f fs m)

module _ (valid : Json → Bool) (items : Items) where
  pub clash-stored :
      (f : BatchItemCreateFields) (sc sr : List String) (fs : List BatchItemCreateFields)
      → clash valid items sc sr fs ≡ false
      → Memᴰ f fs
      → clashes_stored f items ≡ false
  unfolding clash
  clash-stored f sc sr [] h m = elim m [ ]
  clash-stored f sc sr (g ∷ fs) h (Memᴰ.head e) = rw e (ground arith)
  clash-stored f sc sr (g ∷ fs) h (Memᴰ.tail m) =
      clash-stored f (g.custom_id ∷ sc) (g.reading_id ∷ sr) fs (ground arith) m

  clash_seen :
      (f : BatchItemCreateFields) (sc sr : List String) (fs : List BatchItemCreateFields)
      → clash valid items sc sr fs ≡ false
      → Memᴰ f fs
      → contains f.reading_id sr ≡ false
  unfolding clash
  clash_seen f sc sr [] h m = elim m [ ]
  clash_seen f sc sr (g ∷ fs) h (Memᴰ.head e) = rw e (ground arith)
  clash_seen f sc sr (g ∷ fs) h (Memᴰ.tail m) =
      ground (arith, clash_seen f (g.custom_id ∷ sc) (g.reading_id ∷ sr) fs (ground arith) m)

  -- Two of the new items for one reading are the same item.
  pub clash_distinct :
      (f g : BatchItemCreateFields) (sc sr : List String) (fs : List BatchItemCreateFields)
      → clash valid items sc sr fs ≡ false
      → Memᴰ f fs
      → Memᴰ g fs
      → f.reading_id ≡ g.reading_id
      → f ≡ g
  unfolding clash
  clash_distinct f g sc sr [] h m n e = elim m [ ]
  clash_distinct f g sc sr (k ∷ fs) h (Memᴰ.head p) (Memᴰ.head q) e = p ∙ sym q
  clash_distinct f g sc sr (k ∷ fs) h (Memᴰ.head p) (Memᴰ.tail n) e = absurd (
      ground (
        arith,
        clash_seen g (k.custom_id ∷ sc) (k.reading_id ∷ sr) fs (ground arith) n,
        eq_iff k.reading_id g.reading_id,
        ap (λ h. h.reading_id) p,
      ))
  clash_distinct f g sc sr (k ∷ fs) h (Memᴰ.tail m) (Memᴰ.head q) e = absurd (
      ground (
        arith,
        clash_seen f (k.custom_id ∷ sc) (k.reading_id ∷ sr) fs (ground arith) m,
        eq_iff k.reading_id f.reading_id,
        ap (λ h. h.reading_id) q,
      ))
  clash_distinct f g sc sr (k ∷ fs) h (Memᴰ.tail m) (Memᴰ.tail n) e =
      clash_distinct f g (k.custom_id ∷ sc) (k.reading_id ∷ sr) fs (ground arith) m n e
