-- ===== src/Store/Fence.antt =====
-- The lease of internal/store/memory.go: `ExpectedStartedAt` fences content and tag writes to the
-- run that started at that time.
use reading_lite_next.Prelude.{
  String, ◌≡◌, ◌≢◌, inl, inr, refl, Bool, true, false, not, ◌&&◌, Option, none, some, List, [], ◌∷◌,
  All, arith, eq_iff, Option-cases, Bool-cases, str_eq, ◌==◌, get_or,
}
use reading_lite_next.Dict
use reading_lite_next.Dict.{get-put, get-remove}
use reading_lite_next.Errors.{Context, background, Result, ok, err}
use reading_lite_next.Reading.{Reading, Status, Time, running, same_status}
use reading_lite_next.Store.Types.{
  StatusFields, ContentFields, TagFields, ReprocessFields, ImportFields,
}
use reading_lite_next.Store.Memory.{
  Memory, now_or, normalize_tags, write_back, save_reading, update_reading, delete,
}
use reading_lite_next.Store.Updates.{
  update_status, update_content, update_import, reprocess, replace_tags, fenced_out, status_change,
  content_change, import_change, reprocess_change, tags_change, with_reprocess,
}
use reading_lite_next.Store.Calls.{
  Call, saves, sets_status, sets_content, imports, reprocesses, sets_tags, deletes, execute, run,
}

-- No run of the reading `id` that started at `t` is current.
abbrev pub IsSuperseded : String → Time → Memory → Type 0
IsSuperseded id t m = (r : Reading) → Dict.get id m.by_id ≡ some r → fenced_out (some t) r ≡ true

-- A call that makes a run that started at `t` current: it marks the reading running with that start,
-- or saves a reading that is running so.
abbrev pub starts_run : String → Time → Time → Call → Bool
starts_run id t wall (saves r) = str_eq r.id id && not (fenced_out (some t) r)
starts_run id t wall (sets_status j s f) =
    str_eq j id && same_status s running && (get_or f.started_at (now_or wall f.now)) == t
starts_run id t wall _ = false

-- A fenced write by a superseded run is refused and changes nothing.
superseded_writes :
    (id : String) (t : Time) (m : Memory) (wall : Time) (f : ContentFields)
    (tags : Option (List String)) (g : TagFields)
    → f.expected_started_at ≡ some t
    → g.expected_started_at ≡ some t
    → IsSuperseded id t m
    → ((update_content background id f wall m).1 ≡ m)
      × ((update_content background id f wall m).0 ≢ ok tt)
      × ((replace_tags background id tags g wall m).1 ≡ m)
      × ((replace_tags background id tags g wall m).0 ≢ ok tt)
unfolding update_content replace_tags update_reading content_change tags_change
superseded_writes id t m wall f tags g ef eg s = elim (Option-cases (Dict.get id m.by_id)) [
  | inl absent ↦ (ground arith, ground arith, ground arith, ground arith)
  | inr (r, at) ↦ let out = s r at in (ground arith, ground arith, ground arith, ground arith)
]

-- A change that cannot make a run current that started at `t`.
abbrev KeepsOut : Time → (Reading → Result Reading) → Type 0
KeepsOut t change =
    (old new : Reading)
    → change old ≡ ok new
    → fenced_out (some t) old ≡ true
    → fenced_out (some t) new ≡ true

update-IsSuperseded :
    (ctx : Context) (id j : String) (t : Time) (change : Reading → Result Reading) (m : Memory)
    → (str_eq j id ≡ true → KeepsOut t change)
    → IsSuperseded id t m
    → IsSuperseded id t (update_reading ctx j change m).1
unfolding update_reading
update-IsSuperseded (some s) id j t change m keeps h = h
update-IsSuperseded none id j t change m keeps h = elim (Option-cases (Dict.get j m.by_id)) [
  | inl absent ↦ rw (absent, update_reading) h
  | inr (old, at) ↦ rw (at, update_reading) (written old at (change old) refl)
]
  where
    written :
        (old : Reading)
        → Dict.get j m.by_id ≡ some old
        → (x : Result Reading) → change old ≡ x
        → IsSuperseded id t (write_back j x m).1
    written old at (err e) made = λ r bound. h r bound
    written old at (ok new) made = λ r bound. elim (Bool-cases (str_eq j id)) [
      | inl hit ↦
          ground (arith, get-put j id new m.by_id, keeps hit old new made, h old, eq_iff j id)
      | inr miss ↦ ground (arith, get-put j id new m.by_id, h r)
    ]

status_change-KeepsOut :
    (t wall : Time) (s : Status) (f : StatusFields)
    → (same_status s running && (get_or f.started_at (now_or wall f.now)) == t) ≡ false
    → KeepsOut t (status_change s f wall)
unfolding status_change fenced_out
status_change-KeepsOut t wall s f h old new e out = ground arith

content_change-KeepsOut : (t wall : Time) (f : ContentFields) → KeepsOut t (content_change f wall)
unfolding content_change fenced_out
content_change-KeepsOut t wall f old new e out = ground arith

import_change-KeepsOut : (t wall : Time) (f : ImportFields) → KeepsOut t (import_change f wall)
unfolding import_change fenced_out
import_change-KeepsOut t wall f old new e out = ground arith

reprocess_change-KeepsOut :
    (t wall : Time) (f : ReprocessFields) → KeepsOut t (reprocess_change f wall)
unfolding reprocess_change fenced_out
reprocess_change-KeepsOut t wall f old new e out = ground arith

tags_change-KeepsOut :
    (t wall : Time) (tags : Option (List String)) (f : TagFields)
    → KeepsOut t (tags_change tags f wall)
unfolding tags_change fenced_out
tags_change-KeepsOut t wall tags f old new e out = ground arith

save-IsSuperseded :
    (ctx : Context) (id : String) (t : Time) (r : Reading) (m : Memory)
    → (str_eq r.id id && not (fenced_out (some t) r)) ≡ false
    → IsSuperseded id t m
    → IsSuperseded id t (save_reading ctx r m).1
unfolding save_reading fenced_out
save-IsSuperseded ctx id t r m h s x bound =
    ground (arith, s x, get-put r.id id (record r { tags = normalize_tags r.tags }) m.by_id)

delete-IsSuperseded :
    (ctx : Context) (id j : String) (t : Time) (m : Memory)
    → IsSuperseded id t m
    → IsSuperseded id t (delete ctx j m).1
unfolding delete
delete-IsSuperseded ctx id j t m s r bound = ground (arith, s r, get-remove j id m.by_id)

execute-IsSuperseded :
    (ctx : Context) (wall : Time) (c : Call) (id : String) (t : Time) (m : Memory)
    → starts_run id t wall c ≡ false
    → IsSuperseded id t m
    → IsSuperseded id t (execute ctx wall c m).1
unfolding execute update_status update_content update_import reprocess replace_tags
execute-IsSuperseded ctx wall (saves r) id t m h s = save-IsSuperseded ctx id t r m h s
execute-IsSuperseded ctx wall (sets_status j x f) id t m h s =
    update-IsSuperseded ctx id j t _ m (λ hit. status_change-KeepsOut t wall x f (ground arith)) s
execute-IsSuperseded ctx wall (sets_content j f) id t m h s =
    update-IsSuperseded ctx id j t _ m (λ _. content_change-KeepsOut t wall f) s
execute-IsSuperseded ctx wall (imports j f) id t m h s =
    update-IsSuperseded ctx id j t _ m (λ _. import_change-KeepsOut t wall f) s
execute-IsSuperseded ctx wall (reprocesses j f) id t m h s =
    update-IsSuperseded ctx id j t _ m (λ _. reprocess_change-KeepsOut t wall f) s
execute-IsSuperseded ctx wall (sets_tags j tags f) id t m h s =
    update-IsSuperseded ctx id j t _ m (λ _. tags_change-KeepsOut t wall tags f) s
execute-IsSuperseded ctx wall (deletes j) id t m h s = delete-IsSuperseded ctx id j t m s

run-IsSuperseded :
    (id : String) (t : Time) (calls : List (Context × Time × Call)) (m : Memory)
    → All (λ (ctx, wall, c). starts_run id t wall c ≡ false) calls
    → IsSuperseded id t m
    → IsSuperseded id t (run calls m)
unfolding run
run-IsSuperseded id t [] m h s = s
run-IsSuperseded id t ((ctx, wall, c) ∷ rest) m (h, later) s =
    run-IsSuperseded id t rest _ later (execute-IsSuperseded ctx wall c id t m h s)

reprocess-IsSuperseded :
    (id : String) (t wall : Time) (f : ReprocessFields) (m : Memory)
    → IsSuperseded id t (reprocess background id f wall m).1
unfolding reprocess update_reading reprocess_change fenced_out
reprocess-IsSuperseded id t wall f m r bound = elim (Option-cases (Dict.get id m.by_id)) [
  | inl absent ↦ ground arith
  | inr (old, at) ↦
      let reset = with_reprocess f (now_or wall f.now) old in
      ground (arith, eq_iff id id, get-put id id reset m.by_id)
]

-- Once a reading was reset for reprocessing, a run of it that started at `t` can write neither
-- content nor tags through its lease, whatever other calls have come in between, unless one of them
-- makes a run with that very start current again: the write is refused and changes nothing.
pub stale_run_fenced :
    (id : String) (t wall : Time) (reset : ReprocessFields) (m : Memory)
    (calls : List (Context × Time × Call)) (f : ContentFields) (tags : Option (List String))
    (g : TagFields)
    → All (λ (ctx, wall', c). starts_run id t wall' c ≡ false) calls
    → f.expected_started_at ≡ some t
    → g.expected_started_at ≡ some t
    → let m' = run calls (reprocess background id reset wall m).1 in
      ((update_content background id f wall m').1 ≡ m')
      × ((update_content background id f wall m').0 ≢ ok tt)
      × ((replace_tags background id tags g wall m').1 ≡ m')
      × ((replace_tags background id tags g wall m').0 ≢ ok tt)
stale_run_fenced id t wall reset m calls f tags g h ef eg =
    superseded_writes id t _ wall f tags g ef eg
      (run-IsSuperseded id t calls _ h (reprocess-IsSuperseded id t wall reset m))
