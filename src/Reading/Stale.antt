-- ===== src/Reading/Stale.antt =====
-- The stale annotation of internal/reading/reading.go.
use reading_lite_next.Prelude.{ℕ, ◌+◌, ◌<◌, ◌≡◌, ◌↔◌, refl, true, some, arith, pos, negsuc}
use reading_lite_next.Reading.{
  Status, Reading, Time, Duration, Ttls, pending, running, overdue, max_duration, pending_since,
}

-- More than a positive TTL has passed since `since`; a TTL of `max_duration` is never exceeded,
-- since `Sub` saturates there.
abbrev pub Exceeds : Duration → Time → Time → Type 0
Exceeds ttl now since = (n : ℕ) × (ttl ≡ pos n) × (0 < n) × (n < max_duration) × (since + n < now)

pub overdue-Exceeds :
    (ttl : Duration) (now since : Time) → (overdue ttl now since ≡ true) ↔ Exceeds ttl now since
unfolding overdue
overdue-Exceeds (pos n) now since =
    (λ h. (n, refl, ground arith, ground arith, ground arith), λ h. ground arith)
overdue-Exceeds (negsuc n) now since = (λ h. ground arith, λ h. ground arith)

-- A reading is overdue: it has waited as `pending`, or run as `running`, for longer than the TTL of
-- its status.
abbrev pub IsOverdue : Status → Reading → Time → Ttls → Type 0
IsOverdue pending r now ttls = Exceeds ttls.pending now (pending_since r)
IsOverdue running r now ttls =
    (started : Time) × (r.started_at ≡ some started) × Exceeds ttls.running now started
IsOverdue _ r now ttls = ⊥
