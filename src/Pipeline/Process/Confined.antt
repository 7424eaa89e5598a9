-- ===== src/Pipeline/Process/Confined.antt =====
-- The part of the store that a run in internal/pipeline/pipeline.go may change.
use reading_lite_next.Prelude.{
  String, ◌≡◌, ◌≢◌, refl, sym, ap, ◌∙◌, Option, none, some, List, arith, eq_iff, Bool-cases, inl,
  inr,
}
use reading_lite_next.Dict
use reading_lite_next.Dict.{get-put}
use reading_lite_next.Errors.{Context, Result, ok, err}
use reading_lite_next.Reading.{Time, Reading}
use reading_lite_next.Store.Types.{ContentFields, TagFields}
use reading_lite_next.Store.Memory.{Memory, update_reading, write_back}
use reading_lite_next.Store.Updates.{
  update_content, replace_tags, content_change, tags_change, with_content, with_tags, fenced_out,
}
use reading_lite_next.Vector.Similar.{Floats}
use reading_lite_next.Pipeline.{Shared, Run, Pipeline}
use reading_lite_next.Pipeline.Process.{process}
use reading_lite_next.Pipeline.Process.Keeps.{get_row-same}
use reading_lite_next.Pipeline.Process.Whole.{process-shared}

-- the columns that are not the pipeline's
abbrev pub lifecycle_of : Reading → Reading
lifecycle_of r = record r {
  title = "";
  author = "";
  site = "";
  lang = "";
  word_count = 0;
  extraction_mode = "";
  content_key = "";
  raw_key = "";
  summary = "";
  summary_json = none;
  similar_json = none;
  diagnostics_json = none;
  tags = none;
  updated_at = 0;
}

-- the rows of other readings are the same, and the lifecycle columns of this one
pub record IsConfined (r : Reading) (m m' : Memory) : Type 0 where
  pub other_rows : (j : String) → r.id ≢ j → Dict.get j m'.by_id ≡ Dict.get j m.by_id
  pub own_row :
      (row : Reading) × ((Dict.get r.id m'.by_id ≡ some row) × (lifecycle_of row ≡ lifecycle_of r))

lifecycle_in : Reading → Result Reading → Reading
lifecycle_in old (ok new) = lifecycle_of new
lifecycle_in old (err e) = lifecycle_of old

-- a change of content columns alone
abbrev Changes : (Reading → Result Reading) → Type 0
Changes change = (old : Reading) → lifecycle_in old (change old) ≡ lifecycle_of old

content_change-Changes : (f : ContentFields) (wall : Time) → Changes (content_change f wall)
unfolding content_change with_content lifecycle_in
content_change-Changes f wall old = elim (Bool-cases (fenced_out f.expected_started_at old)) [
  | inl out ↦ rw out refl
  | inr own ↦ rw own refl
]

tags_change-Changes :
    (tags : Option (List String)) (f : TagFields) (wall : Time) → Changes (tags_change tags f wall)
unfolding tags_change with_tags lifecycle_in
tags_change-Changes tags f wall old = elim (Bool-cases (fenced_out f.expected_started_at old)) [
  | inl out ↦ rw out refl
  | inr own ↦ rw own refl
]

update-IsConfined :
    (ctx : Context) (r : Reading) (change : Reading → Result Reading) (m m' : Memory)
    → Changes change
    → IsConfined r m m'
    → IsConfined r m (update_reading ctx r.id change m').1
unfolding update_reading lifecycle_in
update-IsConfined (some s) r change m m' same c = c
update-IsConfined none r change m m' same c =
    let (row, (at, kept)) = c.own_row in
    rw (at, update_reading) (written row kept (change row) refl)
  where
    written :
        (row : Reading)
        → lifecycle_of row ≡ lifecycle_of r
        → (x : Result Reading) → change row ≡ x
        → IsConfined r m (write_back r.id x m').1
    written row kept (err e) made = c
    written row kept (ok new) made = record {
      other_rows = λ j other.
          ground (arith, get-put r.id j new m'.by_id, eq_iff r.id j, c.other_rows j other);
      own_row = (
        new,
        (
          ground (arith, get-put r.id r.id new m'.by_id, eq_iff r.id r.id),
          ap (lifecycle_in row) (sym made) ∙ (same row ∙ kept),
        ),
      );
    }

module _ {fl : Floats} (p : Pipeline fl)
    (quiet : (w : Shared fl) (j : String)
      → Dict.get j (p.others w).store.by_id ≡ Dict.get j w.store.by_id) where
  IsConfined-others :
      (r : Reading) (m : Memory) (w : Shared fl)
      → IsConfined r m w.store
      → IsConfined r m (p.others w).store
  IsConfined-others r m w c =
      let (row, (at, kept)) = c.own_row in
      record {
        other_rows = λ j other. quiet w j ∙ c.other_rows j other;
        own_row = (row, (quiet w r.id ∙ at, kept));
      }

  -- When other threads write no reading meanwhile, a run of a stored reading changes no other
  -- reading, and of its own row only the content columns, the tags and the time of the update: its
  -- status, start, attempts, error and keys stay, however the run ends.
  pub process-IsConfined :
      (r : Reading) (s : Run fl)
      → Dict.get r.id s.shared.store.by_id ≡ some r
      → IsConfined r s.shared.store (process p r.id s).1.shared.store
  unfolding update_content replace_tags
  process-IsConfined r s at =
      let w = p.others s.shared in
      process-shared p (λ v. IsConfined r s.shared.store v.store)
        (IsConfined-others r s.shared.store) (λ key v body kind c. c) (λ v e c. c) r (λ v vec c. c)
        (λ key v f e k c.
          update-IsConfined v.ctx r _ s.shared.store v.store (content_change-Changes f v.now) c)
        (λ v tags f e c.
          update-IsConfined v.ctx r _ s.shared.store v.store (tags_change-Changes tags f v.now) c)
        s (λ r' found. get_row-same w.ctx r.id w.store r r' (quiet s.shared r.id ∙ at) found)
        (record { other_rows = λ j other. refl; own_row = (r, (at, refl)) })
