-- ===== src/Dispatch/Retry.antt =====
-- The retry budget of internal/dispatch/dispatch.go: the runs that `decide` grants to a reading.
use native.Mathlib.Decide.{dec_lt}
use reading_lite_next.Prelude.{
  ℕ, ◌+◌, ◌<◌, ◌≤◌, ◌≡◌, true, Option, none, some, List, [], ◌∷◌, arith, ◌-◌, if◌then◌else◌, length,
  All,
}
use reading_lite_next.Dispatch.{RunResult, Action, no_action, retry, decide}

-- The attempts a reading gets, from `attempt` on, while each run ends as `results` says: what
-- `decide` leaves at the end, or `none` when the results end first.
unfoldable pub chain : ℕ → ℕ → List RunResult → Option (ℕ × Action)
chain max attempt [] = none
chain max attempt (r ∷ rs) =
    let act = decide r attempt max in
    let rest = chain max act.next_attempt rs in if act.redispatch then rest else some (attempt, act)

-- With only transient failures, a reading gets exactly `max` runs: from attempt `attempt` on, the
-- run of attempt `max - 1` is the last, and it marks the reading failed.
pub chain-budget :
    (max attempt : ℕ) (rs : List RunResult)
    → attempt < max
    → max ≤ attempt + length rs
    → All (λ r. r.outcome ≡ retry) rs
    → chain max attempt rs ≡ some (max - 1, record no_action { mark_failed = true })
unfolding chain decide
chain-budget max attempt [] within enough only = absurd (omega arith)
chain-budget max attempt (r ∷ rs) within enough (e, only) = elim (dec_lt (attempt + 1) max) [
  | yes more ↦
      let rest = chain-budget max (attempt + 1) rs more (omega arith) only in
      ground (arith, e, more, rest)
  | no last ↦ ground (arith, e, last)
]
