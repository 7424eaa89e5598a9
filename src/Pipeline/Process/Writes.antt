-- ===== src/Pipeline/Process/Writes.antt =====
-- The writes of a run in internal/pipeline/pipeline.go to the blobs and the index.
use reading_lite_next.Prelude.{
  String, ◌≡◌, refl, not, Option, none, some, List, arith, str_eq, Option-cases, Bool-cases, inl,
  inr, length, ◌==◌,
}
use reading_lite_next.Dict
use reading_lite_next.Dict.{Dict, get-put}
use reading_lite_next.Errors.{Context, Result, ok, err}
use reading_lite_next.Effects.{After}
use reading_lite_next.Reading.{Time}
use reading_lite_next.Blobs
use reading_lite_next.Blobs.{Blob}
use reading_lite_next.Vector
use reading_lite_next.Vector.{Entry, dim, fenced}
use reading_lite_next.Vector.Similar.{Floats}
use reading_lite_next.Pipeline.{Shared, in_blobs, in_vectors}
use reading_lite_next.Pipeline.Process.Steps.{put-found}
use reading_lite_next.Pipeline.Process.Durable.{HasBlob, HasVector, IsAnchored}

-- a put keeps the keys of the blobs
put-kept :
    (ctx : Context) (key body kind j : String) (m : Dict (Blob String)) (b : Blob String)
    → Dict.get j m ≡ some b
    → (b' : Blob String) × (Dict.get j (Blobs.put ctx key body kind m).1 ≡ some b')
unfolding Blobs.put
put-kept (some s) key body kind j m b at = (b, at)
put-kept none key body kind j m b at = elim (Bool-cases (str_eq key j)) [
  | inl hit ↦
      let put : Blob String = record { payload = body; content_type = kind } in
      (put, ground (arith, get-put key j put m, hit))
  | inr miss ↦ (b, ground (arith, get-put key j (record { payload = body; content_type = kind }) m))
]

put-stored :
    (ctx : Context) (key body kind : String) (m : Dict (Blob String))
    → After
        (λ _ m'. (b : Blob String) × (Dict.get key m' ≡ some b))
        (λ m'. m' ≡ m)
        (Blobs.put ctx key body kind m)
unfolding Blobs.put
put-stored (some s) key body kind m = refl
put-stored none key body kind m = (_, put-found key _ m)

upsert-stored {ℓ} :
    {F : Type ℓ} (ctx : Context) (id : String) (vec : List F) (g : Option Time) (m : Dict (Entry F))
    → After
        (λ _ m'. (e : Entry F) × (Dict.get id m' ≡ some e))
        (λ m'. m' ≡ m)
        (Vector.upsert ctx id vec g m)
unfolding Vector.upsert fenced
upsert-stored (some s) id vec g m = refl
upsert-stored none id vec g m = elim (Bool-cases (not (length vec == dim))) [
  | inl wrong ↦ rw wrong refl
  | inr right ↦ elim (Option-cases (Dict.get id m)) [
    | inl absent ↦ rw (right, absent, fenced) (_, put-found id _ m)
    | inr (e, at) ↦ elim (Bool-cases (fenced (Dict.get id m) g)) [
      | inl newer ↦ rw (right, newer) (e, at)
      | inr stale ↦ rw (right, stale) (_, put-found id _ m)
    ]
  ]
]

module _ {fl : Floats} where
  pub put-HasBlob :
      (key body kind j : String) (w : Shared fl)
      → HasBlob j w
      → HasBlob j (record w { blobs = (Blobs.put w.ctx key body kind w.blobs).1 })
  put-HasBlob key body kind j w (b, at) = put-kept w.ctx key body kind j w.blobs b at

  pub put-IsAnchored :
      (id key body kind : String) (w : Shared fl)
      → IsAnchored id w
      → IsAnchored id (record w { blobs = (Blobs.put w.ctx key body kind w.blobs).1 })
  put-IsAnchored id key body kind w h row at named =
      put-HasBlob key body kind row.content_key w (h row at named)

  get_result :
      (id key : String) (w : Shared fl) (found : Option (Blob String))
      → IsAnchored id w
      → Dict.get key w.blobs ≡ found
      → After
          (λ (_ : Blob String) v. IsAnchored id v × HasBlob key v)
          (IsAnchored id)
          (Blobs.found found, w)
  unfolding Blobs.found
  get_result id key w (some b) h at = (h, (b, at))
  get_result id key w none h at = h

  pub get-After :
      (id key : String) (w : Shared fl)
      → IsAnchored id w
      → After
          (λ (_ : Blob String) v. IsAnchored id v × HasBlob key v)
          (IsAnchored id)
          (in_blobs (λ v b. (Blobs.get v.ctx key b, b)) w)
  unfolding Blobs.get
  get-After id key w h = looked_up w.ctx
    where
      looked_up :
          (ctx : Context)
          → After
              (λ (_ : Blob String) v. IsAnchored id v × HasBlob key v)
              (IsAnchored id)
              (Blobs.get ctx key w.blobs, w)
      looked_up (some s) = h
      looked_up none = get_result id key w (Dict.get key w.blobs) h refl

  put_result :
      (id key : String) (w : Shared fl) (x : Result (Unit {0}) × Dict (Blob String))
      → IsAnchored id (record w { blobs = x.1 })
      → After (λ _ m'. (b : Blob String) × (Dict.get key m' ≡ some b)) (λ m'. m' ≡ w.blobs) x
      → After
          (λ (_ : Unit {0}) v. IsAnchored id v × HasBlob key v)
          (IsAnchored id)
          (x.0, record w { blobs = x.1 })
  put_result id key w (ok tt, m') h stored = (h, stored)
  put_result id key w (err e, m') h same = h

  pub put-After :
      (id key body kind : String) (w : Shared fl)
      → IsAnchored id w
      → After
          (λ (_ : Unit {0}) v. IsAnchored id v × HasBlob key v)
          (IsAnchored id)
          (in_blobs (λ v. Blobs.put v.ctx key body kind) w)
  put-After id key body kind w h =
      put_result id key w (Blobs.put w.ctx key body kind w.blobs)
        (put-IsAnchored id key body kind w h) (put-stored w.ctx key body kind w.blobs)

  upsert_result :
      (id key : String) (w : Shared fl) (x : Result (Unit {0}) × Dict (Entry fl.F32))
      → IsAnchored id w × HasBlob key w
      → After (λ _ m'. (e : Entry fl.F32) × (Dict.get id m' ≡ some e)) (λ m'. m' ≡ w.vectors) x
      → After
          (λ (_ : Unit {0}) v. IsAnchored id v × HasBlob key v × HasVector id v)
          (IsAnchored id)
          (x.0, record w { vectors = x.1 })
  upsert_result id key w (ok tt, m') (h, b) stored = (h, b, stored)
  upsert_result id key w (err e, m') (h, b) same = h

  pub upsert-After :
      (id key : String) (vec : List fl.F32) (g : Option Time) (w : Shared fl)
      → IsAnchored id w × HasBlob key w
      → After
          (λ (_ : Unit {0}) v. IsAnchored id v × HasBlob key v × HasVector id v)
          (IsAnchored id)
          (in_vectors (λ v. Vector.upsert v.ctx id vec g) w)
  upsert-After id key vec g w h =
      upsert_result id key w (Vector.upsert w.ctx id vec g w.vectors) h
        (upsert-stored w.ctx id vec g w.vectors)
