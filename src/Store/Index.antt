-- ===== src/Store/Index.antt =====
-- The agreement of `byID` and `byURLKey` in internal/store/memory.go, under all its operations.
use reading_lite_next.Prelude.{
  String, ◌≡◌, refl, ◌⊎◌, inl, inr, Option, none, some, List, [], ◌∷◌, arith, eq_iff, str_eq,
  Bool-cases, Option-cases,
}
use reading_lite_next.Dict
use reading_lite_next.Dict.{Dict, get-put, get-remove, get-empty}
use reading_lite_next.Dict.Entries.{IsDistinct, empty-IsDistinct, put-IsDistinct, remove-IsDistinct}
use reading_lite_next.Errors.{Error, Context, Result, ok, err}
use reading_lite_next.Reading.{Time, Status, Reading}
use reading_lite_next.Store.Types.{
  ContentFields, ImportFields, ReprocessFields, TagFields, StatusFields,
}
use reading_lite_next.Store.Memory.{
  Memory, new_memory, normalize_tags, save_reading, update_reading, delete,
}
use reading_lite_next.Store.Updates.{
  update_status, update_content, update_import, reprocess, replace_tags, status_change,
  content_change, import_change, reprocess_change, tags_change,
}
use reading_lite_next.Store.Calls.{
  Call, saves, sets_status, sets_content, imports, reprocesses, sets_tags, deletes, execute, run,
}

pub record IsIndexed (m : Memory) : Type 0 where
  pub rows_distinct : IsDistinct m.by_id
  pub row_id : (id : String) (r : Reading) → Dict.get id m.by_id ≡ some r → r.id ≡ id
  pub row_key :
      (id : String) (r : Reading)
      → Dict.get id m.by_id ≡ some r
      → Dict.get r.url_key m.by_url_key ≡ some id
  pub key_row :
      (key id : String)
      → Dict.get key m.by_url_key ≡ some id
      → (r : Reading) × (Dict.get id m.by_id ≡ some r) × (r.url_key ≡ key)

new_memory-IsIndexed : IsIndexed new_memory
new_memory-IsIndexed = record {
  rows_distinct = empty-IsDistinct Reading;
  row_id = λ id r h. cc (get-empty {V = Reading} id);
  row_key = λ id r h. cc (get-empty {V = Reading} id);
  key_row = λ key id h. absurd (cc (get-empty {V = String} key));
}

-- Writing a reading back under its id keeps the index, if it keeps its id and its URL key.
put-IsIndexed :
    (m : Memory) (id : String) (old new : Reading)
    → IsIndexed m
    → Dict.get id m.by_id ≡ some old
    → new.id ≡ old.id
    → new.url_key ≡ old.url_key
    → IsIndexed (record m { by_id = Dict.put id new m.by_id })
put-IsIndexed m id old new v at same_id same_key = record {
  rows_distinct = put-IsDistinct id new m.by_id v.rows_distinct;
  row_id =
      λ j r h. ground (arith, get-put id j new m.by_id, eq_iff id j, v.row_id j r, v.row_id id old);
  row_key = λ j r h.
      ground (arith, get-put id j new m.by_id, eq_iff id j, v.row_key j r, v.row_key id old);
  key_row = λ key j h.
      let (r, at_r, key_r) = v.key_row key j h in
      elim (Bool-cases (str_eq id j)) [
        | inl hit ↦ (new, ground (arith, get-put id j new m.by_id), ground (arith, eq_iff id j))
        | inr miss ↦ (r, ground (arith, get-put id j new m.by_id), key_r)
      ];
}

-- A change of a reading that keeps what the index is made of.
abbrev KeepsKeys : (Reading → Result Reading) → Type 0
KeepsKeys change =
    (r new : Reading) → change r ≡ ok new → (new.id ≡ r.id) × (new.url_key ≡ r.url_key)

Result-cases {ℓ} :
    {A : Type ℓ} (x : Result A) → ((a : A) × (x ≡ ok a)) ⊎ ((e : Error) × (x ≡ err e))
Result-cases (ok a) = inl (a, refl)
Result-cases (err e) = inr (e, refl)

update-IsIndexed :
    (ctx : Context) (id : String) (change : Reading → Result Reading) (m : Memory)
    → KeepsKeys change
    → IsIndexed m
    → IsIndexed (update_reading ctx id change m).1
unfolding update_reading
update-IsIndexed (some s) id change m keeps v = v
update-IsIndexed none id change m keeps v = elim (Option-cases (Dict.get id m.by_id)) [
  | inl absent ↦ rw (absent, update_reading) v
  | inr (old, at) ↦ elim (Result-cases (change old)) [
    | inl (new, e) ↦
        let (same_id, same_key) = keeps old new e in
        rw (at, update_reading, e) (put-IsIndexed m id old new v at same_id same_key)
    | inr (x, e) ↦ rw (at, update_reading, e) v
  ]
]

insert-IsIndexed :
    (m : Memory) (r : Reading)
    → IsIndexed m
    → Dict.get r.id m.by_id ≡ none
    → Dict.get r.url_key m.by_url_key ≡ none
    → IsIndexed (record m {
      by_id = Dict.put r.id (record r { tags = normalize_tags r.tags }) m.by_id;
      by_url_key = Dict.put r.url_key r.id m.by_url_key;
    })
insert-IsIndexed m r v new_id new_key = record {
  rows_distinct = put-IsDistinct r.id stored m.by_id v.rows_distinct;
  row_id = λ j x h. ground (arith, get-put r.id j stored m.by_id, eq_iff r.id j, v.row_id j x);
  row_key = λ j x h. ground (
    arith,
    get-put r.id j stored m.by_id,
    get-put r.url_key x.url_key r.id m.by_url_key,
    eq_iff r.id j,
    eq_iff r.url_key x.url_key,
    v.row_key j x,
  );
  key_row = λ key j h. elim (Bool-cases (str_eq r.url_key key)) [
    | inl hit ↦ (
      stored,
      ground (
        arith,
        get-put r.url_key key r.id m.by_url_key,
        get-put r.id j stored m.by_id,
        eq_iff r.id j,
      ),
      (eq_iff r.url_key key).0 hit,
    )
    | inr miss ↦
        let (x, at_x, key_x) =
          v.key_row key j (ground (arith, get-put r.url_key key r.id m.by_url_key)) in
        (x, ground (arith, get-put r.id j stored m.by_id, eq_iff r.id j), key_x)
  ];
}
  where
    stored : Reading
    stored = record r { tags = normalize_tags r.tags }

save-IsIndexed :
    (ctx : Context) (r : Reading) (m : Memory) → IsIndexed m → IsIndexed (save_reading ctx r m).1
unfolding save_reading
save-IsIndexed (some s) r m v = v
save-IsIndexed none r m v = elim (Option-cases (Dict.get r.id m.by_id)) [
  | inr (x, at) ↦ rw (at, save_reading) v
  | inl new_id ↦ elim (Option-cases (Dict.get r.url_key m.by_url_key)) [
    | inr (x, at) ↦ rw (new_id, at, save_reading) v
    | inl new_key ↦ rw (new_id, new_key, save_reading) (insert-IsIndexed m r v new_id new_key)
  ]
]

remove-IsIndexed :
    (m : Memory) (id : String) (r : Reading)
    → IsIndexed m
    → Dict.get id m.by_id ≡ some r
    → IsIndexed (record m {
      by_id = Dict.remove id m.by_id;
      by_url_key = Dict.remove r.url_key m.by_url_key;
    })
remove-IsIndexed m id r v at = record {
  rows_distinct = remove-IsDistinct id m.by_id v.rows_distinct;
  row_id = λ j x h. ground (arith, get-remove id j m.by_id, v.row_id j x);
  row_key = λ j x h. ground (
    arith,
    get-remove id j m.by_id,
    get-remove r.url_key x.url_key m.by_url_key,
    eq_iff id j,
    eq_iff r.url_key x.url_key,
    v.row_key j x,
    v.row_key id r,
  );
  key_row = λ key j h.
      let (x, at_x, key_x) =
        v.key_row key j (ground (arith, get-remove r.url_key key m.by_url_key)) in
      (
        x,
        ground (
          arith,
          get-remove id j m.by_id,
          get-remove r.url_key key m.by_url_key,
          eq_iff id j,
          eq_iff r.url_key key,
        ),
        key_x,
      );
}

delete-IsIndexed :
    (ctx : Context) (id : String) (m : Memory) → IsIndexed m → IsIndexed (delete ctx id m).1
unfolding delete
delete-IsIndexed (some s) id m v = v
delete-IsIndexed none id m v = elim (Option-cases (Dict.get id m.by_id)) [
  | inl absent ↦ rw (absent, delete) v
  | inr (r, at) ↦ rw (at, delete) (remove-IsIndexed m id r v at)
]

status_change-KeepsKeys :
    (s : Status) (f : StatusFields) (wall : Time) → KeepsKeys (status_change s f wall)
unfolding status_change
status_change-KeepsKeys s f wall r new e = ground arith

content_change-KeepsKeys : (f : ContentFields) (wall : Time) → KeepsKeys (content_change f wall)
unfolding content_change
content_change-KeepsKeys f wall r new e = ground arith

import_change-KeepsKeys : (f : ImportFields) (wall : Time) → KeepsKeys (import_change f wall)
unfolding import_change
import_change-KeepsKeys f wall r new e = ground arith

reprocess_change-KeepsKeys :
    (f : ReprocessFields) (wall : Time) → KeepsKeys (reprocess_change f wall)
unfolding reprocess_change
reprocess_change-KeepsKeys f wall r new e = ground arith

tags_change-KeepsKeys :
    (tags : Option (List String)) (f : TagFields) (wall : Time)
    → KeepsKeys (tags_change tags f wall)
unfolding tags_change
tags_change-KeepsKeys tags f wall r new e = ground arith

pub execute-IsIndexed :
    (ctx : Context) (wall : Time) (c : Call) (m : Memory)
    → IsIndexed m
    → IsIndexed (execute ctx wall c m).1
unfolding execute update_status update_content update_import reprocess replace_tags
execute-IsIndexed ctx wall (saves r) m v = save-IsIndexed ctx r m v
execute-IsIndexed ctx wall (sets_status id s f) m v =
    update-IsIndexed ctx id _ m (status_change-KeepsKeys s f wall) v
execute-IsIndexed ctx wall (sets_content id f) m v =
    update-IsIndexed ctx id _ m (content_change-KeepsKeys f wall) v
execute-IsIndexed ctx wall (imports id f) m v =
    update-IsIndexed ctx id _ m (import_change-KeepsKeys f wall) v
execute-IsIndexed ctx wall (reprocesses id f) m v =
    update-IsIndexed ctx id _ m (reprocess_change-KeepsKeys f wall) v
execute-IsIndexed ctx wall (sets_tags id tags f) m v =
    update-IsIndexed ctx id _ m (tags_change-KeepsKeys tags f wall) v
execute-IsIndexed ctx wall (deletes id) m v = delete-IsIndexed ctx id m v

run-IsIndexed_from :
    (calls : List (Context × Time × Call)) (m : Memory) → IsIndexed m → IsIndexed (run calls m)
unfolding run
run-IsIndexed_from [] m v = v
run-IsIndexed_from ((ctx, wall, c) ∷ rest) m v =
    run-IsIndexed_from rest _ (execute-IsIndexed ctx wall c m v)

-- After any sequence of calls, refused or not, `byURLKey` is exactly the index of `byID` by URL key.
pub run-IsIndexed : (calls : List (Context × Time × Call)) → IsIndexed (run calls new_memory)
run-IsIndexed calls = run-IsIndexed_from calls new_memory new_memory-IsIndexed
