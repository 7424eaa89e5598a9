-- ===== src/Dispatcher/Handle.antt =====
-- internal/dispatch/dispatcher.go: one run of an item from `handle` to its outcome, the timers that
-- redispatch it, and the forced submission. The store is `Memory`. The handler is a parameter that
-- returns the world after its run, so what other threads do meanwhile is its part.
use reading_lite_next.Prelude.{
  ℕ, String, true, Option, none, some, List, [], ◌∷◌, ◌++◌, ◌==◌, if◌then◌else◌, any,
}
use reading_lite_next.Dict
use reading_lite_next.Errors.{Context, Sentinel, canceled, sentinel, Result, ok, err}
use reading_lite_next.Reading.{Time, Duration, Status, pending, running, ready, failed}
use reading_lite_next.Dispatch.{Item, RunResult, Action, decide, failure_message}
use reading_lite_next.Store.Types.{StatusFields, status_at}
use reading_lite_next.Store.Memory.{Memory}
use reading_lite_next.Store.Updates.{update_status}
use reading_lite_next.Dispatcher.{
  Dispatcher, Config, Waited, active, begin_run, release, force_claim, queue_claimed, cancel_run,
  cancel_of, drop_claim, max_attempts, fresh_item, wait_error,
}

-- A continuation given to `Delay.After`.
pub record Timer : Type 0 where
  pub delay : Duration
  pub item : Item

pub record World : Type 0 where
  pub dispatcher : Dispatcher
  pub store : Memory
  pub timers : List Timer
  pub exited_runs : List ℕ  -- the runs whose `done` is closed
  pub now : Time

-- The context of a run lives until the run is canceled: a worker detaches it from its own.
unfoldable pub run_ctx : ℕ → World → Context
run_ctx run w = if any (λ c. c == run) w.dispatcher.canceled_runs then some canceled else none

abbrev pub running_fields : Time → ℕ → StatusFields
running_fields now attempt = record (status_at now) {
  started_at = some now;
  process_attempts = some attempt;
  clear_error = true;
}

-- a best-effort write: its error is dropped
abbrev pub write_status : ℕ → String → Status → StatusFields → World → World
write_status run id status fields w = record w {
  store = (update_status (run_ctx run w) id status fields w.now w.store).1;
}

abbrev pub ready_fields : Time → StatusFields
ready_fields now = record (status_at now) { finished_at = some now; clear_error = true }

unfoldable pub mark_ready : ℕ → String → World → World
mark_ready run id w = write_status run id ready (ready_fields w.now) w

abbrev pub failed_fields : Time → ℕ → String → StatusFields
failed_fields now attempt text = record (status_at now) {
  finished_at = some now;
  error = some text;
  process_attempts = some attempt;
}

unfoldable pub mark_failed : ℕ → String → ℕ → RunResult → World → World
mark_failed run id attempt res w =
    write_status run id failed (failed_fields w.now attempt (failure_message res attempt)) w

abbrev pub drop_item : Item → World → World
drop_item it w = record w {
  dispatcher =
      drop_claim it.id (cancel_run (cancel_of (Dict.get it.id w.dispatcher.inflight)) w.dispatcher);
}

-- `write` keeps the dispatcher, whose lock is held
unfoldable pub finish : Item → (World → World) → World → World
finish it write w = if active it w.dispatcher then drop_item it (write w) else w

abbrev pub pending_fields : Time → ℕ → StatusFields
pending_fields now next = record (status_at now) { process_attempts = some next }

abbrev pub schedule : Item → Action → World → World
schedule it act w = record w {
  timers =
      w.timers
      ++ (record { delay = act.delay; item = record it { attempt = act.next_attempt } } ∷ []);
}

unfoldable pub redispatch : ℕ → Item → Action → World → World
redispatch run it act w =
    if active it w.dispatcher
    then schedule it act (write_status run it.id pending (pending_fields w.now act.next_attempt) w)
    else w

-- the `switch` on the action
unfoldable pub settle : ℕ → Item → RunResult → Action → World → World
settle run it res act w =
    if act.mark_failed
    then finish it (mark_failed run it.id it.attempt res) w
    else if act.redispatch
    then redispatch run it act w
    else finish it (mark_ready run it.id) w

abbrev pub Handler : Type 0
Handler = ℕ → String → World → RunResult × World

unfoldable pub handled : Config → ℕ → Item → RunResult × World → World
handled cfg run it (res, w) =
    if active it w.dispatcher
    then settle run it res (decide res it.attempt (max_attempts cfg)) w
    else w

abbrev pub release_in : Item → World → World
release_in it w = record w { dispatcher = release it w.dispatcher }

unfoldable pub after_start :
    Config → Handler → ℕ → Item → Result (Unit {0}) × Memory → World → World
after_start cfg handler run it (err _, m) w = release_in it (record w { store = m })
after_start cfg handler run it (ok _, m) w =
    handled cfg run it (handler run it.id (record w { store = m }))

-- the deferred `cancel(); close(done)`
abbrev pub end_run : ℕ → World → World
end_run run w = record w {
  dispatcher = cancel_run (some run) w.dispatcher;
  exited_runs = run ∷ w.exited_runs;
}

unfoldable pub handle_run : Config → Handler → Item → Option ℕ × Dispatcher → World → World
unfolding after_start
handle_run cfg handler it (none, d) w = w
handle_run cfg handler it (some run, d) w =
    let begun = record w { dispatcher = d } in
    end_run run (
      after_start cfg handler run it
        (update_status (run_ctx run begun) it.id running (running_fields w.now it.attempt) w.now
          w.store)
        begun)

unfoldable pub handle : Config → Handler → Item → World → World
unfolding handle_run
handle cfg handler it w = handle_run cfg handler it (begin_run it w.dispatcher) w

abbrev pub queue_in : Config → Item → World → World
queue_in cfg it w = record w { dispatcher = queue_claimed cfg it w.dispatcher }

queue_after : Config → Item → Result (Unit {0}) × World → Result (Unit {0}) × World
queue_after cfg it (err e, w) = (err e, release_in it w)
queue_after cfg it (ok _, w) = (ok tt, queue_in cfg it w)

after_wait :
    Config
    → (World → Result (Unit {0}) × World)
    → Item
    → Option Sentinel
    → World
    → Result (Unit {0}) × World
unfolding queue_after
after_wait cfg before_queue it (some s) w = (err (sentinel s), release_in it w)
after_wait cfg before_queue it none w =
    if active it w.dispatcher then queue_after cfg it (before_queue w) else (ok tt, w)

abbrev forced :
    Config
    → (World → World)
    → Waited
    → (World → Result (Unit {0}) × World)
    → (Item × Option ℕ) × Dispatcher
    → World
    → Result (Unit {0}) × World
forced cfg others waited before_queue ((it, wait), d) w =
    after_wait cfg before_queue it (wait_error wait waited) (others (record w { dispatcher = d }))

-- `ForceSubmitAfter`: `others` is what other threads do during the bounded wait, which ends as
-- `waited` says.
unfoldable pub force_submit_after :
    Config
    → (World → World)
    → Waited
    → Context
    → String
    → (World → Result (Unit {0}) × World)
    → World
    → Result (Unit {0}) × World
unfolding after_wait
force_submit_after cfg others waited ctx id before_queue w = elim ctx [
  | some s ↦ (err (sentinel s), w)
  | none ↦ forced cfg others waited before_queue (force_claim (fresh_item id) w.dispatcher) w
]
