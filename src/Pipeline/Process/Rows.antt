-- ===== src/Pipeline/Process/Rows.antt =====
-- The writes of a run in internal/pipeline/pipeline.go to its row.
use reading_lite_next.Prelude.{String, ◌≡◌, ◌∙◌, arith}
use reading_lite_next.Dict.{Dict}
use reading_lite_next.Errors.{Result, ok, err}
use reading_lite_next.Effects.{After}
use reading_lite_next.Store.Types.{ContentFields, TagFields}
use reading_lite_next.Store.Memory.{Memory}
use reading_lite_next.Store.Updates.{update_content, replace_tags}
use reading_lite_next.Vector.{Entry}
use reading_lite_next.Vector.Similar.{Floats}
use reading_lite_next.Pipeline.{Summary, Shared, in_store}
use reading_lite_next.Pipeline.Process.Steps.{
  IsContentOf, IsTagsOf, update_content-row, replace_tags-row,
}
use reading_lite_next.Pipeline.Process.Durable.{HasBlob, IsAnchored, HasContent, HasTags}

module _ {fl : Floats} where
  -- a row with its content key, whose blob is stored
  pub HasContent-IsAnchored :
      (id key : String) (sum : Summary) (w : Shared fl)
      → HasContent id key sum w
      → HasBlob key w
      → IsAnchored id w
  HasContent-IsAnchored id key sum w (row, at, k, _) blob row' at' named =
      let same : row'.content_key ≡ key = ground (arith, at, at', k) in rw same blob

  content_result :
      (id key : String) (sum : Summary) (f : ContentFields) (w : Shared fl)
      (rest : Dict (Entry fl.F32) → Type 0) (x : Result (Unit {0}) × Memory)
      → f.content_key ≡ key
      → f.summary ≡ sum.summary
      → IsAnchored id w × HasBlob key w × rest w.vectors
      → IsContentOf id f w.store x
      → After
          (λ (_ : Unit {0}) v. HasContent id key sum v × HasBlob key v × rest v.vectors)
          (IsAnchored id)
          (x.0, record w { store = x.1 })
  content_result id key sum f w rest (ok tt, m') k s (h, b, v) (old, new, at, at', nk, ns, nt) =
      ((new, at', nk ∙ k, ns ∙ s), b, v)
  content_result id key sum f w rest (err e, m') k s (h, b, v) same = rw same h

  -- `rest` is about the index
  pub content-After :
      (id key : String) (sum : Summary) (f : ContentFields) (w : Shared fl)
      (rest : Dict (Entry fl.F32) → Type 0)
      → f.content_key ≡ key
      → f.summary ≡ sum.summary
      → IsAnchored id w × HasBlob key w × rest w.vectors
      → After
          (λ (_ : Unit {0}) v. HasContent id key sum v × HasBlob key v × rest v.vectors)
          (IsAnchored id)
          (in_store (λ v. update_content v.ctx id f v.now) w)
  content-After id key sum f w rest k s h =
      content_result id key sum f w rest (update_content w.ctx id f w.now w.store) k s h
        (update_content-row w.ctx id f w.now w.store)

  checkpoint_result :
      (id key : String) (sum : Summary) (w : Shared fl) (x : Result (Unit {0}) × Memory)
      → After
          (λ (_ : Unit {0}) v. HasContent id key sum v × HasBlob key v × Unit {0})
          (IsAnchored id)
          (x.0, record w { store = x.1 })
      → After
          (λ (_ : Unit {0}) v. IsAnchored id v × HasBlob key v)
          (IsAnchored id)
          (x.0, record w { store = x.1 })
  checkpoint_result id key sum w (ok u, m') (c, b, _) =
      (HasContent-IsAnchored id key sum (record w { store = m' }) c b, b)
  checkpoint_result id key sum w (err e, m') h = h

  -- a content write before there is a vector
  pub checkpoint-After :
      (id key : String) (sum : Summary) (f : ContentFields) (w : Shared fl)
      → f.content_key ≡ key
      → f.summary ≡ sum.summary
      → IsAnchored id w × HasBlob key w
      → After
          (λ (_ : Unit {0}) v. IsAnchored id v × HasBlob key v)
          (IsAnchored id)
          (in_store (λ v. update_content v.ctx id f v.now) w)
  checkpoint-After id key sum f w k s (h, b) =
      checkpoint_result id key sum w (update_content w.ctx id f w.now w.store)
        (content-After id key sum f w (λ _. Unit {0}) k s (h, b, tt))

  tags_result :
      (id key : String) (sum : Summary) (w : Shared fl) (rest : Dict (Entry fl.F32) → Type 0)
      (x : Result (Unit {0}) × Memory)
      → HasContent id key sum w × HasBlob key w × rest w.vectors
      → IsTagsOf id sum.tags w.store x
      → After
          (λ (_ : Unit {0}) v. HasTags id key sum v × HasBlob key v × rest v.vectors)
          (IsAnchored id)
          (x.0, record w { store = x.1 })
  tags_result id key sum w rest (ok tt, m') ((row, at, k, s), b, v)
        (old, new, at', at'', nk, ns, nt) =
      ((new, at'', ground (arith, at, at', nk, k), ground (arith, at, at', ns, s), nt), b, v)
  tags_result id key sum w rest (err e, m') (c, b, v) same =
      rw same (HasContent-IsAnchored id key sum w c b)

  pub tags-After :
      (id key : String) (sum : Summary) (f : TagFields) (w : Shared fl)
      (rest : Dict (Entry fl.F32) → Type 0)
      → HasContent id key sum w × HasBlob key w × rest w.vectors
      → After
          (λ (_ : Unit {0}) v. HasTags id key sum v × HasBlob key v × rest v.vectors)
          (IsAnchored id)
          (in_store (λ v. replace_tags v.ctx id sum.tags f v.now) w)
  tags-After id key sum f w rest h =
      tags_result id key sum w rest (replace_tags w.ctx id sum.tags f w.now w.store) h
        (replace_tags-row w.ctx id sum.tags f w.now w.store)

  content_again_result :
      (id key : String) (sum : Summary) (f : ContentFields) (w : Shared fl)
      (rest : Dict (Entry fl.F32) → Type 0) (x : Result (Unit {0}) × Memory)
      → f.content_key ≡ key
      → f.summary ≡ sum.summary
      → HasTags id key sum w × HasBlob key w × rest w.vectors
      → IsContentOf id f w.store x
      → After
          (λ (_ : Unit {0}) v. HasTags id key sum v × HasBlob key v × rest v.vectors)
          (λ v. HasTags id key sum v × HasBlob key v × rest v.vectors)
          (x.0, record w { store = x.1 })
  content_again_result id key sum f w rest (ok tt, m') k s ((row, at, _, _, t), b, v)
        (old, new, at', at'', nk, ns, nt) =
      ((new, at'', nk ∙ k, ns ∙ s, ground (arith, at, at', nt, t)), b, v)
  content_again_result id key sum f w rest (err e, m') k s h same = rw same h

  -- a content write with the same key and summary
  pub content_again-After :
      (id key : String) (sum : Summary) (f : ContentFields) (w : Shared fl)
      (rest : Dict (Entry fl.F32) → Type 0)
      → f.content_key ≡ key
      → f.summary ≡ sum.summary
      → HasTags id key sum w × HasBlob key w × rest w.vectors
      → After
          (λ (_ : Unit {0}) v. HasTags id key sum v × HasBlob key v × rest v.vectors)
          (λ v. HasTags id key sum v × HasBlob key v × rest v.vectors)
          (in_store (λ v. update_content v.ctx id f v.now) w)
  content_again-After id key sum f w rest k s h =
      content_again_result id key sum f w rest (update_content w.ctx id f w.now w.store) k s h
        (update_content-row w.ctx id f w.now w.store)
