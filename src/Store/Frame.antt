-- ===== src/Store/Frame.antt =====
-- What the reading operations of internal/store/memory.go leave alone.
use reading_lite_next.Prelude.{
  String, ◌≡◌, ◌≢◌, inl, inr, refl, Option, none, some, List, arith, eq_iff, Option-cases,
}
use reading_lite_next.Dict
use reading_lite_next.Dict.{get-put, get-remove}
use reading_lite_next.Errors.{Context, Result, ok, err}
use reading_lite_next.Reading.{Reading, Status, Time}
use reading_lite_next.Store.Types.{StatusFields, ContentFields}
use reading_lite_next.Store.Memory.{
  Memory, normalize_tags, write_back, save_reading, update_reading, delete,
}
use reading_lite_next.Store.Updates.{
  update_status, update_content, update_import, reprocess, replace_tags, with_status, with_content,
  with_tags,
}
use reading_lite_next.Store.Calls.{
  Call, saves, sets_status, sets_content, imports, reprocesses, sets_tags, deletes, execute,
}

-- the id of the reading that a call is about
abbrev pub target : Call → String
target (saves r) = r.id
target (sets_status id s f) = id
target (sets_content id f) = id
target (imports id f) = id
target (reprocesses id f) = id
target (sets_tags id tags f) = id
target (deletes id) = id

-- What a call may do: fail and leave the store, or succeed and touch no other reading.
abbrev pub Contained : String → Memory → Result (Unit {0}) × Memory → Type 0
Contained id m (err e, m') = m' ≡ m
Contained id m (ok _, m') = (j : String) → id ≢ j → Dict.get j m'.by_id ≡ Dict.get j m.by_id

update-Contained :
    (ctx : Context) (id : String) (change : Reading → Result Reading) (m : Memory)
    → Contained id m (update_reading ctx id change m)
unfolding update_reading
update-Contained (some s) id change m = refl
update-Contained none id change m = elim (Option-cases (Dict.get id m.by_id)) [
  | inl absent ↦ rw (absent, update_reading) refl
  | inr (old, at) ↦ rw (at, update_reading) (written (change old))
]
  where
    written : (x : Result Reading) → Contained id m (write_back id x m)
    written (err e) = refl
    written (ok r) = λ j other. ground (arith, get-put id j r m.by_id, eq_iff id j)

save-Contained :
    (ctx : Context) (r : Reading) (m : Memory) → Contained r.id m (save_reading ctx r m)
unfolding save_reading
save-Contained (some s) r m = refl
save-Contained none r m = elim (Option-cases (Dict.get r.id m.by_id)) [
  | inr (x, at) ↦ rw (at, save_reading) refl
  | inl new_id ↦ elim (Option-cases (Dict.get r.url_key m.by_url_key)) [
    | inr (x, at) ↦ rw (new_id, at, save_reading) refl
    | inl new_key ↦
        rw (new_id, new_key, save_reading)
          λ j other. ground (
            arith,
            get-put r.id j (record r { tags = normalize_tags r.tags }) m.by_id,
            eq_iff r.id j,
          )
  ]
]

delete-Contained : (ctx : Context) (id : String) (m : Memory) → Contained id m (delete ctx id m)
unfolding delete
delete-Contained (some s) id m = refl
delete-Contained none id m = elim (Option-cases (Dict.get id m.by_id)) [
  | inl absent ↦ rw (absent, delete) refl
  | inr (r, at) ↦ rw (at, delete) (λ j other. ground (arith, get-remove id j m.by_id, eq_iff id j))
]

-- A call that fails, a cancelled context included, leaves the store as it was; a call that succeeds
-- changes no reading but the one it is about.
pub execute-Contained :
    (ctx : Context) (wall : Time) (c : Call) (m : Memory)
    → Contained (target c) m (execute ctx wall c m)
unfolding execute update_status update_content update_import reprocess replace_tags
execute-Contained ctx wall (saves r) m = save-Contained ctx r m
execute-Contained ctx wall (sets_status id s f) m = update-Contained ctx id _ m
execute-Contained ctx wall (sets_content id f) m = update-Contained ctx id _ m
execute-Contained ctx wall (imports id f) m = update-Contained ctx id _ m
execute-Contained ctx wall (reprocesses id f) m = update-Contained ctx id _ m
execute-Contained ctx wall (sets_tags id tags f) m = update-Contained ctx id _ m
execute-Contained ctx wall (deletes id) m = delete-Contained ctx id m

-- The dispatcher's status writes and the pipeline's content and tag writes own disjoint columns:
-- at one time they commute, whatever they write.
status_content_tags_commute :
    (s : Status) (f : StatusFields) (g : ContentFields) (tags : Option (List String)) (t : Time)
    (r : Reading)
    → (with_status s f t (with_content g t r) ≡ with_content g t (with_status s f t r))
      × (with_status s f t (with_tags tags t r) ≡ with_tags tags t (with_status s f t r))
      × (with_content g t (with_tags tags t r) ≡ with_tags tags t (with_content g t r))
unfolding with_status with_content with_tags
status_content_tags_commute s f g tags t r = (refl, refl, refl)
