-- ===== src/Pipeline/Process/Durable.antt =====
-- What a run in internal/pipeline/pipeline.go leaves in the store, the blobs and the index.
use reading_lite_next.Prelude.{String, ◌≡◌, sym, ◌∙◌, false, some, str_eq, if◌then◌else◌}
use reading_lite_next.Dict
use reading_lite_next.Dict.{Dict, get-put}
use reading_lite_next.Reading.{Reading}
use reading_lite_next.Store.Memory.{normalize_tags}
use reading_lite_next.Blobs.{Blob}
use reading_lite_next.Vector.{Entry}
use reading_lite_next.Vector.Similar.{Floats}
use reading_lite_next.Pipeline.{Summary, Shared, Pipeline}
use reading_lite_next.Pipeline.Fields.{content_key}

-- the key under which a run of this reading has its content
abbrev pub run_content_key : Reading → String
run_content_key r = if str_eq r.content_key "" then content_key r else r.content_key

module _ {fl : Floats} where
  -- the blob of a key is stored
  abbrev pub HasBlob : String → Shared fl → Type 0
  HasBlob key w = (b : Blob String) × (Dict.get key w.blobs ≡ some b)

  -- a vector of an id is stored
  abbrev pub HasVector : String → Shared fl → Type 0
  HasVector id w = (e : Entry fl.F32) × (Dict.get id w.vectors ≡ some e)

  -- the content key of a row does not dangle
  abbrev pub IsAnchored : String → Shared fl → Type 0
  IsAnchored id w =
      (row : Reading)
      → Dict.get id w.store.by_id ≡ some row
      → str_eq row.content_key "" ≡ false
      → HasBlob row.content_key w

  -- the row of an id has this content and summary
  abbrev pub HasContent : String → String → Summary → Shared fl → Type 0
  HasContent id key sum w =
      (row : Reading) × (Dict.get id w.store.by_id ≡ some row)
      × (row.content_key ≡ key)
      × (row.summary ≡ sum.summary)

  -- and these tags
  abbrev pub HasTags : String → String → Summary → Shared fl → Type 0
  HasTags id key sum w =
      (row : Reading) × (Dict.get id w.store.by_id ≡ some row)
      × (row.content_key ≡ key)
      × (row.summary ≡ sum.summary)
      × (row.tags ≡ normalize_tags sum.tags)

-- Other threads leave the row and the vector of the id alone, and the stored blobs.
pub record IsQuiet {fl : Floats} (p : Pipeline fl) (id : String) : Type 0 where
  pub rows : (w : Shared fl) → Dict.get id (p.others w).store.by_id ≡ Dict.get id w.store.by_id
  pub blobs :
      (w : Shared fl) (key : String) (b : Blob String)
      → Dict.get key w.blobs ≡ some b
      → Dict.get key (p.others w).blobs ≡ some b
  pub vectors : (w : Shared fl) → Dict.get id (p.others w).vectors ≡ Dict.get id w.vectors

module _ {fl : Floats} (p : Pipeline fl) (id : String) (q : IsQuiet p id) where
  pub HasBlob-others : (key : String) (w : Shared fl) → HasBlob key w → HasBlob key (p.others w)
  HasBlob-others key w (b, at) = (b, q.blobs w key b at)

  pub IsAnchored-others : (w : Shared fl) → IsAnchored id w → IsAnchored id (p.others w)
  IsAnchored-others w h row at named =
      HasBlob-others row.content_key w (h row (sym (q.rows w) ∙ at) named)

  pub HasVector-others : (w : Shared fl) → HasVector id w → HasVector id (p.others w)
  HasVector-others w (e, at) = (e, q.vectors w ∙ at)

  pub HasContent-others :
      (key : String) (sum : Summary) (w : Shared fl)
      → HasContent id key sum w
      → HasContent id key sum (p.others w)
  HasContent-others key sum w (row, at, k, s) = (row, q.rows w ∙ at, k, s)

  pub HasTags-others :
      (key : String) (sum : Summary) (w : Shared fl)
      → HasTags id key sum w
      → HasTags id key sum (p.others w)
  HasTags-others key sum w (row, at, k, s, t) = (row, q.rows w ∙ at, k, s, t)
