-- ===== src/Httpx/Delay.antt =====
-- internal/httpx/httpx.go: the delay after a rate limit.
use reading_lite_next.Prelude.{
  ℕ, ◌^◌, ◌≤◌, ◌≡◌, refl, Option, if◌then◌else◌, arith, pos, negsuc, ltb_ℤ, Bool-cases, inl, inr,
}
use Prim.Native.String.{String}
use reading_lite_next.Reading.{Duration}
use reading_lite_next.Dispatch.{backoff_cap}
use reading_lite_next.Httpx.{retry_after, rate_limit_delay}

at_least_second :
    (d : Duration)
    → (n : ℕ) × ((if ltb_ℤ d (pos (10 ^ 9)) then pos backoff_cap else d) ≡ pos n) × (10 ^ 9 ≤ n)
at_least_second (negsuc n) = (backoff_cap, refl, ground arith)
at_least_second (pos n) = elim (Bool-cases (ltb_ℤ (pos n) (pos (10 ^ 9)))) [
  | inl short ↦ (backoff_cap, rw (short) refl, ground arith)
  | inr long ↦ (n, rw (long) refl, ground (arith, long))
]

-- The delay after a rate limit is at least a second, whatever the header says and however its
-- seconds wrap around in 64 bits: a requeue, which uses up no attempt, never spins.
pub rate_limit_delay-min :
    (until : String → Option Duration) (header : String)
    → (n : ℕ) × (rate_limit_delay until header ≡ pos n) × (10 ^ 9 ≤ n)
unfolding rate_limit_delay
rate_limit_delay-min until header = at_least_second (retry_after until header)
