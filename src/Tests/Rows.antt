-- ===== src/Tests/Rows.antt =====
-- The single readings of the store, at concrete inputs.
use reading_lite_next.Prelude.{◌≡◌, ◌≢◌, ◌↔◌, refl, none, some, List, [], ◌∷◌}
use mathlib.Core.List.{Memᴰ}
use reading_lite_next.Dict
use reading_lite_next.Errors.{background, ok, err, sentinel, not_found}
use reading_lite_next.Reading.{Reading, running}
use reading_lite_next.Store.Types.{Pending, status_at}
use reading_lite_next.Store.Memory.{
  Memory, new_memory, save_reading, get_by_id, get_by_url_key, delete, list_non_terminal,
}
use reading_lite_next.Store.Updates.{update_content, replace_tags, reprocess}
use reading_lite_next.Store.Calls.{sets_status, deletes, execute, run}
use reading_lite_next.Store.Index.{IsIndexed, run-IsIndexed}
use reading_lite_next.Store.Recovery.{IsLeftOver, list_non_terminal_exact}
use reading_lite_next.Store.Saving.{delete_lem, stored}
use reading_lite_next.Store.Frame.{Contained, execute-Contained}
use reading_lite_next.Store.Fence.{stale_run_fenced}
use reading_lite_next.Tests.Data.{note, history, reset, content, tag_fields}

run-IsIndexed_example : IsIndexed (run history new_memory)
run-IsIndexed_example = run-IsIndexed history

stale_run_fenced_example :
    let m =
      run
        ((none, 11, sets_status "n1" running (record (status_at 11) { started_at = some 11 })) ∷ [])
        (reprocess background "n1" reset 12 (run history new_memory)).1 in
    ((update_content background "n1" content 12 m).1 ≡ m)
    × ((update_content background "n1" content 12 m).0 ≢ ok tt)
    × ((replace_tags background "n1" (some ("go" ∷ [])) tag_fields 12 m).1 ≡ m)
    × ((replace_tags background "n1" (some ("go" ∷ [])) tag_fields 12 m).0 ≢ ok tt)
stale_run_fenced_example =
    stale_run_fenced "n1" 7 12 reset (run history new_memory)
      ((none, 11, sets_status "n1" running (record (status_at 11) { started_at = some 11 })) ∷ [])
      content (some ("go" ∷ [])) tag_fields (refl, tt) refl refl

abbrev left_over : Pending
left_over = record { id = "n1"; process_attempts = 1 }

list_non_terminal_exact_example :
    let m = run history new_memory in
    (rows : List Pending) × (list_non_terminal background 30 m ≡ (ok rows, m))
    × (Memᴰ left_over rows ↔ (
        (r : Reading) × (Dict.get "n1" m.by_id ≡ some r)
        × IsLeftOver 30 r
        × (1 ≡ r.process_attempts)))
list_non_terminal_exact_example =
    list_non_terminal_exact 30 (run history new_memory) left_over (run-IsIndexed history)

delete_lem_example :
    (m : Memory) × (delete background "n1" (run history new_memory) ≡ (ok tt, m))
    × (get_by_id background "n1" m ≡ (err (sentinel not_found), m))
    × (get_by_url_key background "https://example.com/a" m ≡ (err (sentinel not_found), m))
    × ((save_reading background (stored note) m).0 ≡ ok tt)
unfolding run execute save_reading get_by_id Dict.get Dict.put Dict.lookup Dict.without Dict.empty
delete_lem_example =
    delete_lem "n1" (stored note) (run history new_memory) (run-IsIndexed history) refl

execute-Contained_example :
    Contained "n1"
      (run history new_memory)
      (execute none 12 (deletes "n1") (run history new_memory))
execute-Contained_example = execute-Contained none 12 (deletes "n1") (run history new_memory)
