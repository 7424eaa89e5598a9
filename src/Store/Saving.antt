-- ===== src/Store/Saving.antt =====
-- `SaveReading`, the lookups and `Delete` of internal/store/memory.go, one after another.
use text.Mathlib.TextPositions.{eq_refl}
use reading_lite_next.Prelude.{String, ◌≡◌, ◌≢◌, ◌⊎◌, none, arith, eq_iff}
use reading_lite_next.Dict
use reading_lite_next.Dict.{get-put, get-remove}
use reading_lite_next.Errors.{background, not_found, conflict, sentinel, ok, err}
use reading_lite_next.Reading.{Reading}
use reading_lite_next.Store.Memory.{
  Memory, normalize_tags, save_reading, get_by_id, get_by_url_key, delete,
}
use reading_lite_next.Store.Index.{IsIndexed}

abbrev pub stored : Reading → Reading
stored r = record r { tags = normalize_tags r.tags }

-- Saving a reading whose id or URL key is taken is refused with a conflict, and changes nothing.
pub save_reading-taken :
    (r : Reading) (m : Memory)
    → (Dict.get r.id m.by_id ≢ none) ⊎ (Dict.get r.url_key m.by_url_key ≢ none)
    → save_reading background r m ≡ (err (sentinel conflict), m)
unfolding save_reading
save_reading-taken r m h = ground arith

-- A reading that is saved under a free id and a free URL key is found under both afterwards, with
-- its tags normalized, and both are taken.
pub save_reading-found :
    (r : Reading) (m : Memory)
    → Dict.get r.id m.by_id ≡ none
    → Dict.get r.url_key m.by_url_key ≡ none
    → (m' : Memory) × (save_reading background r m ≡ (ok tt, m'))
      × (get_by_id background r.id m' ≡ (ok (stored r), m'))
      × (get_by_url_key background r.url_key m' ≡ (ok (stored r), m'))
      × (save_reading background r m' ≡ (err (sentinel conflict), m'))
unfolding save_reading get_by_id get_by_url_key
save_reading-found r m no_id no_key = (
  record m {
    by_id = Dict.put r.id (stored r) m.by_id;
    by_url_key = Dict.put r.url_key r.id m.by_url_key;
  },
  ground arith,
  simp (get-put, eq_refl),
  simp (get-put, eq_refl),
  simp (get-put, eq_refl),
)

-- In an indexed store, a reading that was deleted is found by neither its id nor its URL key, and
-- can be saved again.
pub delete_lem :
    (id : String) (r : Reading) (m : Memory)
    → IsIndexed m
    → get_by_id background id m ≡ (ok r, m)
    → (m' : Memory) × (delete background id m ≡ (ok tt, m'))
      × (get_by_id background id m' ≡ (err (sentinel not_found), m'))
      × (get_by_url_key background r.url_key m' ≡ (err (sentinel not_found), m'))
      × ((save_reading background r m').0 ≡ ok tt)
unfolding delete get_by_id get_by_url_key save_reading
delete_lem id r m v at = (
  gone,
  ground arith,
  simp (get-remove, eq_refl),
  simp (get-remove, eq_refl),
  ground (
    arith,
    v.row_id id r,
    get-remove id r.id m.by_id,
    get-remove r.url_key r.url_key m.by_url_key,
    eq_iff id r.id,
    eq_iff r.url_key r.url_key,
  ),
)
  where
    gone : Memory
    gone = record m {
      by_id = Dict.remove id m.by_id;
      by_url_key = Dict.remove r.url_key m.by_url_key;
    }
