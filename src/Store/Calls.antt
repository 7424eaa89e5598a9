-- ===== src/Store/Calls.antt =====
-- The reading operations of internal/store/memory.go as one type of calls, run one after another.
use reading_lite_next.Prelude.{String, Option, List, [], ◌∷◌}
use reading_lite_next.Errors.{Context}
use reading_lite_next.Reading.{Time, Status, Reading}
use reading_lite_next.Store.Types.{
  ContentFields, ImportFields, ReprocessFields, TagFields, StatusFields,
}
use reading_lite_next.Store.Memory.{Op, Memory, save_reading, delete}
use reading_lite_next.Store.Updates.{
  update_status, update_content, update_import, reprocess, replace_tags,
}

-- A mutating call of the reading operations, with its context and the wall clock.
pub data Call : Type 0 where
  saves : Reading → Call
  sets_status : String → Status → StatusFields → Call
  sets_content : String → ContentFields → Call
  imports : String → ImportFields → Call
  reprocesses : String → ReprocessFields → Call
  sets_tags : String → Option (List String) → TagFields → Call
  deletes : String → Call

unfoldable pub execute : Context → Time → Call → Op (Unit {0})
execute ctx wall (saves r) = save_reading ctx r
execute ctx wall (sets_status id s f) = update_status ctx id s f wall
execute ctx wall (sets_content id f) = update_content ctx id f wall
execute ctx wall (imports id f) = update_import ctx id f wall
execute ctx wall (reprocesses id f) = reprocess ctx id f wall
execute ctx wall (sets_tags id tags f) = replace_tags ctx id tags f wall
execute ctx wall (deletes id) = delete ctx id

unfoldable pub run : List (Context × Time × Call) → Memory → Memory
run [] m = m
run ((ctx, wall, c) ∷ rest) m = run rest (execute ctx wall c m).1
