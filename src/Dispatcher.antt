-- ===== src/Dispatcher.antt =====
-- internal/dispatch/dispatcher.go: in-process ownership of reading ids, the bounded channel and the
-- forced takeover. Each function here runs under `inflightMu`, or is one channel operation. A run
-- is known by a number: a claim's `cancel` is the run whose context it cancels, and its `done` the
-- run whose exit it signals.
pub mod Handle
pub mod Ownership
pub mod Queue
pub mod Sweep
pub mod Outcomes
pub mod Workers
use reading_lite_next.Prelude.{
  ℕ, ◌+◌, ◌%◌, ◌^◌, String, Bool, true, false, not, Option, none, some, List, [], ◌∷◌, ◌++◌, ltb,
  leb, ◌==◌, if◌then◌else◌, is_some, length, any, ℤ, pos, negsuc, ltb_ℤ,
}
use reading_lite_next.Dict
use reading_lite_next.Dict.{Dict}
use reading_lite_next.Errors.{Context, Sentinel, canceled, Error, Result, ok, err, sentinel}
use reading_lite_next.Dispatch.{Item}

pub record Claim : Type 0 where
  pub token : ℕ
  pub cancel : Option ℕ
  pub done : Option ℕ

pub record Dispatcher : Type 0 where
  pub inflight : Dict Claim
  pub next_token : ℕ  -- uint64
  pub next_run : ℕ  -- numbers the runs
  pub canceled_runs : List ℕ
  pub ch : List Item  -- oldest first

abbrev pub new_dispatcher : Dispatcher
new_dispatcher = record {
  inflight = Dict.empty;
  next_token = 0;
  next_run = 0;
  canceled_runs = [];
  ch = [];
}

abbrev pub token_mod : ℕ
token_mod = 2 ^ 64

abbrev owns : Item → Option Claim → Bool
owns it none = false
owns it (some current) = current.token == it.token

unfoldable pub active : Item → Dispatcher → Bool
active it d = owns it (Dict.get it.id d.inflight)

abbrev pub next_token_of : Dispatcher → ℕ
next_token_of d = (d.next_token + 1) % token_mod

claim_free : Item → Option Claim → Dispatcher → Option Item × Dispatcher
claim_free it (some _) d = (none, d)
claim_free it none d = (
  some (record it { token = next_token_of d }),
  record d {
    next_token = next_token_of d;
    inflight =
        Dict.put it.id (record { token = next_token_of d; cancel = none; done = none }) d.inflight;
  },
)

unfoldable pub claim : Item → Dispatcher → Option Item × Dispatcher
unfolding claim_free
claim it d = claim_free it (Dict.get it.id d.inflight) d

-- a `CancelFunc`, where there is one
abbrev pub cancel_run : Option ℕ → Dispatcher → Dispatcher
cancel_run none d = d
cancel_run (some run) d = record d { canceled_runs = run ∷ d.canceled_runs }

abbrev pub cancel_of : Option Claim → Option ℕ
cancel_of none = none
cancel_of (some current) = current.cancel

abbrev pub drop_claim : String → Dispatcher → Dispatcher
drop_claim id d = record d { inflight = Dict.remove id d.inflight }

unfoldable pub release : Item → Dispatcher → Dispatcher
unfolding active
release it d =
    if active it d
    then drop_claim it.id (cancel_run (cancel_of (Dict.get it.id d.inflight)) d)
    else d

-- the run's number, or `none` if the item no longer owns its id
unfoldable pub begin_run : Item → Dispatcher → Option ℕ × Dispatcher
unfolding active
begin_run it d =
    if active it d
    then (
      some d.next_run,
      record d {
        next_run = d.next_run + 1;
        inflight =
            Dict.put it.id
              (record { token = it.token; cancel = some d.next_run; done = some d.next_run })
              d.inflight;
      },
    )
    else (none, d)

abbrev done_of : Option Claim → Option ℕ
done_of none = none
done_of (some current) = current.done

-- the replacement item, and the run to wait for
unfoldable pub force_claim : Item → Dispatcher → (Item × Option ℕ) × Dispatcher
force_claim it d =
    let current = Dict.get it.id d.inflight in
    let wait = done_of current in
    (
      (record it { token = next_token_of d }, wait),
      record (cancel_run (cancel_of current) d) {
        next_token = next_token_of d;
        inflight =
            Dict.put it.id (record { token = next_token_of d; cancel = none; done = wait })
              d.inflight;
      },
    )

pub record Config : Type 0 where
  pub workers : ℤ
  pub max : ℤ
  pub buffer : ℤ
  pub running_ttl : ℤ
  pub force_wait_ttl : ℤ

abbrev or_default : ℤ → ℕ → ℕ
or_default (pos n) default = if n == 0 then default else n
or_default (negsuc n) default = default

-- `ensureCh`
abbrev pub buffer_size : Config → ℕ
buffer_size cfg = or_default cfg.buffer 1024

abbrev pub max_attempts : Config → ℕ
max_attempts cfg = or_default cfg.max 5

-- `queueClaimed` of the worker topology: a full channel drops the item with its claim
unfoldable pub queue_claimed : Config → Item → Dispatcher → Dispatcher
unfolding active release
queue_claimed cfg it d =
    if not (active it d)
    then d
    else if ltb (length d.ch) (buffer_size cfg)
    then record d { ch = d.ch ++ (it ∷ []) }
    else release it d

queue_if : Config → Option Item × Dispatcher → Dispatcher
queue_if cfg (none, d) = d
queue_if cfg (some it, d) = queue_claimed cfg it d

abbrev pub fresh_item : String → Item
fresh_item id = record { id = id; attempt = 0; token = 0 }

unfoldable pub submit : Config → String → Dispatcher → Dispatcher
unfolding queue_if claim queue_claimed
submit cfg id d = queue_if cfg (claim (fresh_item id) d)

-- How the bounded wait of `awaitStaleHandler` ends. A drained handler and a spent budget both let
-- the caller proceed.
pub data Waited : Type 0 where
  drained timed_out : Waited
  aborted : Sentinel → Waited

abbrev wait_error : Option ℕ → Waited → Option Sentinel
wait_error none waited = none
wait_error (some run) drained = none
wait_error (some run) timed_out = none
wait_error (some run) (aborted s) = some s
