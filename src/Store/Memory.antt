-- ===== src/Store/Memory.antt =====
-- internal/store/memory.go: the maps of `Memory` and its reading operations. Each operation runs
-- under the lock, so it is one step from a store to a store; what was written before an error is
-- returned stays written. The field updates are in Updates. Values are immutable here, so the clones are not modelled. `wall` is the
-- wall clock, which is read where `fields.Now` is zero.
use reading_lite_next.Prelude.{
  String, Bool, false, ◌&&◌, ◌||◌, Option, none, some, List, [], ◌∷◌, ltb, ◌==◌, if◌then◌else◌,
  get_or,
}
use reading_lite_next.Dict
use reading_lite_next.Dict.{Dict}
use reading_lite_next.Errors.{Context, Sentinel, not_found, conflict, sentinel, Result, ok, err}
use reading_lite_next.Reading.{Time, pending, running, Reading, zero_reading, same_status}
use reading_lite_next.Store.Types.{Pending, ManualBatch, ManualBatchItem}

pub record Memory : Type 0 where
  pub by_id : Dict Reading
  pub by_url_key : Dict String
  pub batches : Dict ManualBatch
  pub batch_items : Dict ManualBatchItem
  pub batch_items_by_batch : Dict (List String)

-- `NewMemory`
abbrev pub new_memory : Memory
new_memory = record {
  by_id = Dict.empty;
  by_url_key = Dict.empty;
  batches = Dict.empty;
  batch_items = Dict.empty;
  batch_items_by_batch = Dict.empty;
}

abbrev pub Op {ℓ} : Type ℓ → Type ℓ
Op A = Memory → Result A × Memory

abbrev pub fail {ℓ} : {A : Type ℓ} → Sentinel → Op A
fail s m = (err (sentinel s), m)

-- `if err := ctx.Err(); err != nil { return err }`
abbrev pub live {ℓ} : {A : Type ℓ} → Context → Op A → Op A
live none op m = op m
live (some s) op m = fail s m

-- `now := fields.Now; if now.IsZero() { now = time.Now().UTC() }`
abbrev pub now_or : Time → Time → Time
now_or wall now = if now == 0 then wall else now

-- `normalizeTags`
abbrev pub normalize_tags : Option (List String) → Option (List String)
normalize_tags none = some []
normalize_tags (some tags) = some tags

insert_new : Reading → Option Reading → Option String → Op (Unit {0})
insert_new r (some _) _ m = fail conflict m
insert_new r none (some _) m = fail conflict m
insert_new r none none m = (
  ok tt,
  record m {
    by_id = Dict.put r.id (record r { tags = normalize_tags r.tags }) m.by_id;
    by_url_key = Dict.put r.url_key r.id m.by_url_key;
  },
)

unfoldable pub save_reading : Context → Reading → Op (Unit {0})
unfolding insert_new
save_reading ctx r =
    live ctx λ m. insert_new r (Dict.get r.id m.by_id) (Dict.get r.url_key m.by_url_key) m

abbrev found {ℓ} : {A : Type ℓ} → Option A → Op A
found none m = fail not_found m
found (some a) m = (ok a, m)

unfoldable pub get_by_id : Context → String → Op Reading
get_by_id ctx id = live ctx λ m. found (Dict.get id m.by_id) m

-- `m.byID[id]` of an id that is not there is the zero reading
row : Option String → Memory → Option Reading
row none m = none
row (some id) m = some (get_or (Dict.get id m.by_id) zero_reading)

unfoldable pub get_by_url_key : Context → String → Op Reading
unfolding row
get_by_url_key ctx key = live ctx λ m. found (row (Dict.get key m.by_url_key) m) m

abbrev pub write_back : String → Result Reading → Op (Unit {0})
write_back id (err e) m = (err e, m)
write_back id (ok r) m = (ok tt, record m { by_id = Dict.put id r m.by_id })

abbrev pub update_found : String → (Reading → Result Reading) → Option Reading → Op (Unit {0})
update_found id change none m = fail not_found m
update_found id change (some r) m = write_back id (change r) m

-- Look a reading up, or `ErrNotFound`; change it, or fail; write it back.
unfoldable pub update_reading : Context → String → (Reading → Result Reading) → Op (Unit {0})
update_reading ctx id change = live ctx λ m. update_found id change (Dict.get id m.by_id) m

started_before : Time → Option Time → Bool
started_before cutoff none = false
started_before cutoff (some t) = ltb t cutoff

-- the cases of the `switch` in `ListNonTerminal`
unfoldable pub recoverable : Time → Reading → Bool
unfolding started_before
recoverable cutoff r =
    same_status r.status pending
    || (same_status r.status running && started_before cutoff r.started_at)

abbrev pub pending_row : Reading → Pending
pending_row r = record { id = r.id; process_attempts = r.process_attempts }

unfoldable pub pending_rows : Time → List (String × Reading) → List Pending
pending_rows cutoff [] = []
pending_rows cutoff ((_, r) ∷ rows) =
    let rest = pending_rows cutoff rows in
    if recoverable cutoff r then pending_row r ∷ rest else rest

unfoldable pub list_non_terminal : Context → Time → Op (List Pending)
list_non_terminal ctx cutoff = live ctx λ m. (ok (pending_rows cutoff m.by_id.entries), m)

delete_found : String → Option Reading → Op (Unit {0})
delete_found id none m = fail not_found m
delete_found id (some r) m = (
  ok tt,
  record m { by_id = Dict.remove id m.by_id; by_url_key = Dict.remove r.url_key m.by_url_key },
)

unfoldable pub delete : Context → String → Op (Unit {0})
unfolding delete_found
delete ctx id = live ctx λ m. delete_found id (Dict.get id m.by_id) m
