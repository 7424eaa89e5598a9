-- ===== src/Pipeline/Process/Steps.antt =====
-- What a step of the pipeline in internal/pipeline/pipeline.go makes true of the shared state, with
-- whatever other threads do before it.
use reading_lite_next.Prelude.{
  String, ◌≡◌, refl, Option, none, some, List, arith, eq_iff, Option-cases, Bool-cases, inl, inr,
}
use reading_lite_next.Dict
use reading_lite_next.Dict.{Dict, get-put}
use reading_lite_next.Errors.{Context, Result, ok, err}
use reading_lite_next.Effects.{Act, After, Meets, >>=-Meets}
use reading_lite_next.Reading.{Time, Reading}
use reading_lite_next.Store.Types.{ContentFields, TagFields}
use reading_lite_next.Store.Memory.{Memory, normalize_tags, update_reading}
use reading_lite_next.Store.Updates.{
  update_content, replace_tags, content_change, tags_change, fenced_out, with_content, with_tags,
}
use reading_lite_next.Vector.Similar.{Floats}
use reading_lite_next.Pipeline.{
  Content, Summary, Diagnostics, Shared, Run, Pipeline, access, in_store, on_shared,
}
use reading_lite_next.Pipeline.Fields.{content_fields}
use reading_lite_next.Pipeline.Process.{timed, write_content, write_tags, tag_fields}

pub put-found {ℓ} :
    {V : Type ℓ} (k : String) (v : V) (d : Dict V) → Dict.get k (Dict.put k v d) ≡ some v
put-found k v d = ground (arith, eq_iff k k, get-put k k v d)

-- the row after a content write, from the row before it
abbrev pub IsContentOf : String → ContentFields → Memory → Result (Unit {0}) × Memory → Type 0
IsContentOf id f m =
    After
      (λ _ m'.
        (old new : Reading) × (Dict.get id m.by_id ≡ some old)
        × (Dict.get id m'.by_id ≡ some new)
        × (new.content_key ≡ f.content_key)
        × (new.summary ≡ f.summary)
        × (new.tags ≡ old.tags))
      (λ m'. m' ≡ m)

pub update_content-row :
    (ctx : Context) (id : String) (f : ContentFields) (wall : Time) (m : Memory)
    → IsContentOf id f m (update_content ctx id f wall m)
unfolding update_content update_reading content_change with_content
update_content-row (some s) id f wall m = refl
update_content-row none id f wall m = elim (Option-cases (Dict.get id m.by_id)) [
  | inl absent ↦ rw (absent, update_reading) refl
  | inr (old, at) ↦ elim (Bool-cases (fenced_out f.expected_started_at old)) [
    | inl out ↦ rw (at, out, update_reading) refl
    | inr own ↦
        rw (at, own, update_reading) (old, _, refl, put-found id _ m.by_id, refl, refl, refl)
  ]
]

-- the row after a tag write, from the row before it
abbrev pub IsTagsOf : String → Option (List String) → Memory → Result (Unit {0}) × Memory → Type 0
IsTagsOf id tags m =
    After
      (λ _ m'.
        (old new : Reading) × (Dict.get id m.by_id ≡ some old)
        × (Dict.get id m'.by_id ≡ some new)
        × (new.content_key ≡ old.content_key)
        × (new.summary ≡ old.summary)
        × (new.tags ≡ normalize_tags tags))
      (λ m'. m' ≡ m)

pub replace_tags-row :
    (ctx : Context) (id : String) (tags : Option (List String)) (f : TagFields) (wall : Time)
    (m : Memory)
    → IsTagsOf id tags m (replace_tags ctx id tags f wall m)
unfolding replace_tags update_reading tags_change with_tags
replace_tags-row (some s) id tags f wall m = refl
replace_tags-row none id tags f wall m = elim (Option-cases (Dict.get id m.by_id)) [
  | inl absent ↦ rw (absent, update_reading) refl
  | inr (old, at) ↦ elim (Bool-cases (fenced_out f.expected_started_at old)) [
    | inl out ↦ rw (at, out, update_reading) refl
    | inr own ↦
        rw (at, own, update_reading) (old, _, refl, put-found id _ m.by_id, refl, refl, refl)
  ]
]

module _ {fl : Floats} (p : Pipeline fl) where
  on_shared-After {ℓ μ} :
      {A : Type ℓ} (good : A → Shared fl → Type μ) (bad : Shared fl → Type μ) (d : Diagnostics)
      (x : Result A × Shared fl)
      → After good bad x
      → After (λ a (s : Run fl). good a s.shared) (λ (s : Run fl). bad s.shared) (on_shared x d)
  on_shared-After good bad d (ok a, w) h = h
  on_shared-After good bad d (err e, w) h = h

  pub access-Meets {ℓ μ} :
      {A : Type ℓ} (before : Shared fl → Type μ) (op : Act (Shared fl) A)
      (good : A → Shared fl → Type μ) (bad : Shared fl → Type μ)
      → ((w : Shared fl) → before w → before (p.others w))
      → ((w : Shared fl) → before w → After good bad (op w))
      → Meets
          (λ (s : Run fl). before s.shared)
          (access p op)
          (λ a (s : Run fl). good a s.shared)
          (λ (s : Run fl). bad s.shared)
  access-Meets before op good bad open' h = record {
    met = λ s k. on_shared-After good bad s.diag _ (h _ (open' s.shared k));
  }

  timed-After {ℓ μ} :
      {A : Type ℓ} (good : A → Shared fl → Type μ) (bad : Shared fl → Type μ) (d : Diagnostics)
      (x : Result A × Run fl)
      → ((a : A) (w : Shared fl) → good a w → good a (p.others w))
      → ((w : Shared fl) → bad w → bad (p.others w))
      → After (λ a (s : Run fl). good a s.shared) (λ (s : Run fl). bad s.shared) x
      → After
          (λ a (s : Run fl). good a s.shared)
          (λ (s : Run fl). bad s.shared)
          (x.0, record { shared = p.others x.1.shared; diag = d })
  timed-After good bad d (ok a, s) open' open'' h = open' a _ h
  timed-After good bad d (err e, s) open' open'' h = open'' _ h

  pub timed-Meets {ℓ μ} :
      {A : Type ℓ} (key : String) (before : Shared fl → Type μ) (m : Act (Run fl) A)
      (good : A → Shared fl → Type μ) (bad : Shared fl → Type μ)
      → ((w : Shared fl) → before w → before (p.others w))
      → ((a : A) (w : Shared fl) → good a w → good a (p.others w))
      → ((w : Shared fl) → bad w → bad (p.others w))
      → Meets
          (λ (s : Run fl). before s.shared)
          m
          (λ a (s : Run fl). good a s.shared)
          (λ (s : Run fl). bad s.shared)
      → Meets
          (λ (s : Run fl). before s.shared)
          (timed p key m)
          (λ a (s : Run fl). good a s.shared)
          (λ (s : Run fl). bad s.shared)
  unfolding timed
  timed-Meets key before m good bad open' open'' open''' h = record {
    met = λ s k. timed-After good bad _ (m _) open'' open''' (h.met _ (open' s.shared k));
  }

  pub write_content-Meets {μ} :
      (before : Shared fl → Type μ) (r : Reading) (c : Content fl) (sum : Summary)
      (good bad : Shared fl → Type μ)
      → ((w : Shared fl) → before w → before (p.others w))
      → ((w : Shared fl) (f : ContentFields)
          → f.content_key ≡ c.content_key
          → f.summary ≡ sum.summary
          → before w
          → After (λ _. good) bad (in_store (λ v. update_content v.ctx r.id f v.now) w))
      → Meets
          (λ (s : Run fl). before s.shared)
          (write_content p r c sum)
          (λ _ (s : Run fl). good s.shared)
          (λ (s : Run fl). bad s.shared)
  unfolding write_content content_fields
  write_content-Meets before r c sum good bad open' h =
      >>=-Meets (λ _ (s : Run fl). before s.shared) (record { met = λ s k. open' s.shared k })
        λ now.
          >>=-Meets (λ _ (s : Run fl). before s.shared) (record { met = λ s k. k })
            λ diag.
              access-Meets before _ (λ _. good) bad open'
                λ w k. h w (content_fields p r c diag sum now) refl refl k

  pub write_tags-Meets {μ} :
      (before : Shared fl → Type μ) (r : Reading) (sum : Summary) (good bad : Shared fl → Type μ)
      → ((w : Shared fl) → before w → before (p.others w))
      → ((w : Shared fl) (f : TagFields)
          → before w
          → After (λ _. good) bad (in_store (λ v. replace_tags v.ctx r.id sum.tags f v.now) w))
      → Meets
          (λ (s : Run fl). before s.shared)
          (write_tags p r sum)
          (λ _ (s : Run fl). good s.shared)
          (λ (s : Run fl). bad s.shared)
  unfolding write_tags
  write_tags-Meets before r sum good bad open' h =
      >>=-Meets (λ _ (s : Run fl). before s.shared) (record { met = λ s k. open' s.shared k })
        λ now. access-Meets before _ (λ _. good) bad open' λ w k. h w (tag_fields p r now) k
