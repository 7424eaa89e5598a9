-- ===== src/Blobs.antt =====
-- internal/blobs/blobs.go: the in-memory blob store. Values are immutable here, so the clones are
-- not modelled; `D` is the type of the payloads.
use reading_lite_next.Prelude.{String, Option, none, some}
use reading_lite_next.Dict
use reading_lite_next.Dict.{Dict}
use reading_lite_next.Errors.{Context, blob_not_found, sentinel, Result, ok, err}

pub record Blob {ℓ} (D : Type ℓ) : Type ℓ where
  pub payload : D
  pub content_type : String

module _ {ℓ} {D : Type ℓ} where
  unfoldable pub put :
      Context → String → D → String → Dict (Blob D) → Result (Unit {0}) × Dict (Blob D)
  put none key payload content_type m =
      (ok tt, Dict.put key (record { payload = payload; content_type = content_type }) m)
  put (some s) key payload content_type m = (err (sentinel s), m)

  unfoldable pub found : Option (Blob D) → Result (Blob D)
  found (some b) = ok b
  found none = err (sentinel blob_not_found)

  unfoldable pub get : Context → String → Dict (Blob D) → Result (Blob D)
  unfolding found
  get none key m = found (Dict.get key m)
  get (some s) key m = err (sentinel s)

  unfoldable pub delete : Context → String → Dict (Blob D) → Result (Unit {0}) × Dict (Blob D)
  delete none key m = (ok tt, Dict.remove key m)
  delete (some s) key m = (err (sentinel s), m)
