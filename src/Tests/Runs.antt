-- ===== src/Tests/Runs.antt =====
-- The retry policy, the dispatcher and the commands, at concrete inputs.
use reading_lite_next.Prelude.{
  is_some, ◌-◌, ◌≡◌, refl, true, false, none, some, [], ◌∷◌, arith, pos,
}
use reading_lite_next.Dict
use reading_lite_next.Errors.{plain, is, ok}
use reading_lite_next.Reading.{pending}
use reading_lite_next.Store.Memory.{new_memory, get_by_url_key, save_reading}
use reading_lite_next.Store.Calls.{run}
use reading_lite_next.Store.Index.{run-IsIndexed}
use reading_lite_next.Dispatch.{RunResult, no_action, retry}
use reading_lite_next.Dispatch.Retry.{chain, chain-budget}
use reading_lite_next.Dispatcher.{begin_run, force_claim, submit}
use reading_lite_next.Dispatcher.Queue.{next_item, submit-outcome}
use reading_lite_next.Dispatcher.Handle.{World}
use reading_lite_next.ReadingOps.{Ops, StatusResult, ingest_url}
use reading_lite_next.ReadingOps.Idempotent.{Keeps, Stores, ingest_url_twice}
use reading_lite_next.Blobs
use reading_lite_next.ReadingOps.Markdown.{MarkdownImport, replace_failed_with_markdown}
use reading_lite_next.ReadingOps.Markdown.Staging.{replace_failed_with_markdown-kept}
use reading_lite_next.Store.Memory.{update_reading}
use reading_lite_next.Store.Updates.{update_import}
use reading_lite_next.Errors.{sentinel, not_found}
use reading_lite_next.Reading.{Reading}
use reading_lite_next.Tests.Data.{note, config, service, ops_of, item, owned, owned_world}

abbrev transient : RunResult
transient = record { outcome = retry; after = pos 0; err = some (plain "timeout") }

chain-budget_example :
    chain 3 1 (transient ∷ transient ∷ []) ≡ some (3 - 1, record no_action { mark_failed = true })
chain-budget_example =
    chain-budget 3 1 (transient ∷ transient ∷ []) (ground arith) (ground arith) (refl, (refl, tt))

abbrev forced_world : World
forced_world = record owned_world {
  dispatcher = (begin_run (record item { token = 2 }) (force_claim item owned).1).1;
}

submit-outcome_example :
    ((submit config "n2" owned).ch ≡ next_item "n2" owned ∷ [])
    × (is_some (Dict.get "n2" (submit config "n2" owned).inflight) ≡ true)
unfolding Dict.get Dict.lookup
submit-outcome_example = submit-outcome config "n2" owned

still-Keeps : Keeps (λ o. o)
still-Keeps = record { indexed = λ s v. v; filed = λ s key id filed. filed }

ingest_url_twice_example :
    let s = ops_of (run [] new_memory) in
    Stores "https://example.com/a" "n9"
      (ingest_url service (λ o. o) none "https://example.com/a" s).1.world.store
    × ((res : StatusResult) × ((ingest_url service
            (λ o. o)
            none
            "https://example.com/a"
            (ingest_url service (λ o. o) none "https://example.com/a" s).1).0
          ≡ ok res)
        × (res.id ≡ "n9")
        × (res.created ≡ false))
unfolding ingest_url get_by_url_key Dict.get Dict.lookup Dict.empty run save_reading is
ingest_url_twice_example =
    ingest_url_twice service (λ o. o) (λ o. o) (λ o. o) none "https://example.com/a"
      "https://example.com/a" "https://example.com/a" (ops_of (run [] new_memory))
      (record { id = "n9"; status = pending; created = true }) refl refl still-Keeps still-Keeps
      still-Keeps (run-IsIndexed []) refl

abbrev lost_row : Reading
lost_row = record note { raw_key = "readings/n1/raw.md" }

abbrev replacement : MarkdownImport
replacement = record { url = "https://example.com/a"; markdown = "# A"; title = "A"; tags = none }

abbrev with_blob : Ops
with_blob = record (ops_of new_memory) {
  blobs = record {
    entries =
        ("readings/n1/raw.md", record { payload = "old"; content_type = "text/markdown" }) ∷ [];
  };
}

replace_failed_with_markdown-kept_example :
    let t = (replace_failed_with_markdown service none lost_row replacement with_blob).1 in
    (t.world ≡ with_blob.world)
    × (Dict.get "readings/n1/raw.md" t.blobs ≡ Dict.get "readings/n1/raw.md" with_blob.blobs)
    × (Dict.get "" t.blobs ≡ Dict.get "" with_blob.blobs)
unfolding replace_failed_with_markdown update_import update_reading Blobs.put Dict.get Dict.lookup
    Dict.empty
replace_failed_with_markdown-kept_example =
    replace_failed_with_markdown-kept service none lost_row replacement with_blob
      (sentinel not_found) refl
