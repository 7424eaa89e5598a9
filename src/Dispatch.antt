-- ===== src/Dispatch.antt =====
-- internal/dispatch/dispatch.go: the outcome of a run, the error classifier, the backoff and the
-- retry decision; with `failureMessage` of internal/dispatch/dispatcher.go. Attempts are counted
-- from 0 and never negative in the dispatcher; `backoff` takes any integer.
pub mod Backoff
pub mod Retry
use Prim.Native.String.{◌++◌}
use reading_lite_next.Prelude.{
  ℕ, ◌+◌, ◌*◌, ◌%◌, ◌^◌, String, Bool, true, false, ◌||◌, Option, none, some, leb, ltb, ◌==◌,
  if◌then◌else◌, ℤ, pos, negsuc,
}
use reading_lite_next.Prelude.Text.{decimal}
use reading_lite_next.Errors.{Error, permanent, message, is, as_rate_limit}
use reading_lite_next.Reading.{Duration}

pub data Outcome : Type 0 where
  done retry requeue fail : Outcome

-- `dispatch.Result`
pub record RunResult : Type 0 where
  pub outcome : Outcome
  pub after : Duration
  pub err : Option Error

pub record Item : Type 0 where
  pub id : String
  pub attempt : ℕ
  pub token : ℕ

pub record Action : Type 0 where
  pub redispatch : Bool
  pub delay : Duration
  pub next_attempt : ℕ
  pub mark_failed : Bool

-- `Action{}`
abbrev pub no_action : Action
no_action = record { redispatch = false; delay = pos 0; next_attempt = 0; mark_failed = false }

classify_error : Error → Option Duration → RunResult
classify_error e (some d) = record { outcome = requeue; after = d; err = some e }
classify_error e none = record {
  outcome = if is e permanent then fail else retry;
  after = pos 0;
  err = some e;
}

-- `Classify`
unfoldable pub classify : Option Error → RunResult
unfolding classify_error
classify none = record { outcome = done; after = pos 0; err = none }
classify (some e) = classify_error e (as_rate_limit e)

abbrev pub backoff_base : ℕ
backoff_base = 1000000000

abbrev pub backoff_cap : ℕ
backoff_cap = 30000000000

-- the bit pattern of `backoffBase << attempt` in an int64; `d <= 0` holds of 0 and of the patterns
-- from 2^63 on
abbrev pub shifted : ℕ → ℕ
shifted attempt = (backoff_base * 2 ^ attempt) % 2 ^ 64

cap_shifted : ℕ → ℕ
cap_shifted d = if d == 0 || leb (2 ^ 63) d || ltb backoff_cap d then backoff_cap else d

unfoldable pub backoff : ℤ → ℕ
unfolding cap_shifted
backoff (negsuc n) = cap_shifted (shifted 0)
backoff (pos attempt) = cap_shifted (shifted attempt)

unfoldable pub decide : RunResult → ℕ → ℕ → Action
decide r attempt max_attempts = elim r.outcome [
  | requeue ↦ record {
    redispatch = true;
    delay = r.after;
    next_attempt = attempt;
    mark_failed = false;
  }
  | retry ↦
      if leb max_attempts (attempt + 1) then record no_action { mark_failed = true } else record {
        redispatch = true;
        delay = pos (backoff (pos attempt));
        next_attempt = attempt + 1;
        mark_failed = false;
      }
  | fail ↦ record no_action { mark_failed = true }
  | done ↦ no_action
]

spent_message : ℕ → Option Error → String
spent_message attempts (some e) =
    "retry budget exhausted after " ++ (decimal attempts ++ (" attempts: " ++ message e))
spent_message attempts none = "retry budget exhausted after " ++ (decimal attempts ++ " attempts")

other_message : Option Error → String
other_message (some e) = message e
other_message none = "processing failed"

-- `failureMessage`
unfoldable pub failure_message : RunResult → ℕ → String
unfolding spent_message other_message
failure_message res attempt = elim res.outcome [
  | retry ↦ spent_message (attempt + 1) res.err
  | _ ↦ other_message res.err
]
