-- ===== src/Reading/Lifecycle.antt =====
-- The transition table of internal/reading/status.go.
use reading_lite_next.Prelude.{◌≡◌, ◌⊎◌, true, false, arith}
use reading_lite_next.Reading.{Status, pending, running, failed, can_transition, is_terminal}

-- A processing attempt ends only by leaving `running`, or by failing while still `pending`: a
-- transition into a terminal status starts at a status that is not terminal, and a terminal status
-- is left for `pending` alone.
pub can_transition_terminal :
    (s t : Status)
    → can_transition s t ≡ true
    → ((is_terminal t ≡ false) ⊎ (s ≡ running) ⊎ ((s ≡ pending) × (t ≡ failed)))
      × ((is_terminal s ≡ false) ⊎ (t ≡ pending))
unfolding can_transition is_terminal
can_transition_terminal s t h = (ground arith, ground arith)
