-- ===== src/Dispatcher/Outcomes.antt =====
-- How a run ends in internal/dispatch/dispatcher.go: the row, the claim and the timers after each
-- outcome of the handler.
use reading_lite_next.Prelude.{ℕ, ◌≡◌, none, some, [], ◌∷◌, ◌++◌, if◌then◌else◌, leb, pos, ◌+◌, not}
use reading_lite_next.Dict
use reading_lite_next.Dict.{Dict}
use reading_lite_next.Reading.{Time, Duration, Reading, pending, ready, failed}
use reading_lite_next.Dispatch.{
  Item, RunResult, failure_message, done, retry, requeue, fail, backoff,
}
use reading_lite_next.Store.Memory.{Memory}
use reading_lite_next.Dispatcher.{Dispatcher}
use reading_lite_next.Dispatcher.Handle.{World}

-- What a run means for its reading: it has ended with this row, or it runs again, after a delay and
-- at an attempt.
pub data Fate : Type 0 where
  ends : Reading → Fate
  again : Reading → Duration → ℕ → Fate

module _ (now : Time) (r : Reading) where
  abbrev pub as_failed : RunResult → ℕ → Fate
  as_failed res attempt = ends (record r {
    status = failed;
    updated_at = now;
    finished_at = some now;
    error = failure_message res attempt;
    process_attempts = attempt;
  })

  abbrev pub as_pending : Duration → ℕ → Fate
  as_pending delay next =
      again (record r { status = pending; updated_at = now; process_attempts = next }) delay next

  -- A success is final, as is a permanent error. A transient error uses up an attempt, and the last
  -- one is final; a rate limit uses up none.
  unfoldable pub fate : RunResult → ℕ → ℕ → Fate
  fate res attempt limit = elim res.outcome [
    | done ↦
        ends (record r { status = ready; updated_at = now; finished_at = some now; error = "" })
    | fail ↦ as_failed res attempt
    | requeue ↦ as_pending res.after attempt
    | retry ↦
        if not (leb limit (attempt + 1))
        then as_pending (pos (backoff (pos attempt))) (attempt + 1)
        else as_failed res attempt
  ]

-- the world that a run of the item leaves
abbrev pub IsSettled : Item → World → World → Fate → Type 0
IsSettled it w v (ends r) =
    (Dict.get it.id v.store.by_id ≡ some r)
    × (Dict.get it.id v.dispatcher.inflight ≡ none)
    × (v.timers ≡ w.timers)
IsSettled it w v (again r delay next) =
    (Dict.get it.id v.store.by_id ≡ some r)
    × (v.dispatcher ≡ w.dispatcher)
    × (v.timers ≡ w.timers ++ (record { delay = delay; item = record it { attempt = next } } ∷ []))
