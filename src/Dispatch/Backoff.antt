-- ===== src/Dispatch/Backoff.antt =====
-- The backoff of internal/dispatch/dispatch.go.
use Prim.Native.Nat.{min}
use native.Mathlib.Nat.{pow-suc, mul_assoc}
use native.Mathlib.Decide.{dec_lt}
use reading_lite_next.Prelude.{
  ℕ, zero, suc, ◌+◌, ◌-◌, ◌*◌, ◌%◌, ◌^◌, ◌≤◌, ◌<◌, ◌≡◌, refl, Bool, true, ◌&&◌, arith, ◌==◌, ==_iff,
  pos, negsuc,
}
use reading_lite_next.Dispatch.{backoff, backoff_base, backoff_cap, shifted, cap_shifted}

-- The shift at an attempt agrees with the formula, and at every earlier one.
agrees : (ℕ → ℕ) → (ℕ → ℕ) → ℕ → Bool
agrees f g zero = true
agrees f g (suc attempts) = agrees f g attempts && (f attempts == g attempts)

agrees_lem : (f g : ℕ → ℕ) (attempts a : ℕ) → a < attempts → agrees f g attempts ≡ true → f a ≡ g a
unfolding agrees
agrees_lem f g zero a below table = absurd (omega arith)
agrees_lem f g (suc attempts) a below table =
    ground (arith, agrees_lem f g attempts a, ==_iff (f attempts) (g attempts))

-- What the shift, its wrap-around and the cap compute.
abbrev capped : ℕ → ℕ
capped a = min backoff_cap (backoff_base * 2 ^ a)

small_table : agrees (λ a. cap_shifted (shifted a)) capped 60 ≡ true
unfolding agrees cap_shifted
small_table = refl

small : (a : ℕ) → a < 60 → cap_shifted (shifted a) ≡ capped a
small a h = agrees_lem (λ x. cap_shifted (shifted x)) capped 60 a h small_table

-- From 2^60 on all bits of the base are shifted out.
abbrev from_sixty : ℕ → ℕ
from_sixty zero = 60
from_sixty (suc n) = suc (from_sixty n)

from_sixty-add : (n : ℕ) → from_sixty n ≡ n + 60
from_sixty-add zero = refl
from_sixty-add (suc n) = omega (arith, from_sixty-add n)

double_wraps : (x : ℕ) → x % 2 ^ 64 ≡ 0 → (x * 2) % 2 ^ 64 ≡ 0
double_wraps x h = omega arith

shifted_out :
    (n : ℕ) → (shifted (from_sixty n) ≡ 0) × (backoff_cap ≤ backoff_base * 2 ^ from_sixty n)
shifted_out zero = (refl, omega arith)
shifted_out (suc n) =
    let (wraps, above) = shifted_out n in
    rw (pow-suc 2 (from_sixty n), ← mul_assoc backoff_base (2 ^ from_sixty n) 2)
      (double_wraps _ wraps, omega arith)

large : (a : ℕ) → 60 ≤ a → cap_shifted (shifted a) ≡ capped a
unfolding cap_shifted
large a h =
    let e : a ≡ from_sixty (a - 60) = omega (arith, from_sixty-add (a - 60)) in
    let (wraps, above) = shifted_out (a - 60) in rw e (rw wraps (omega arith))

-- The delay is 1s doubled `attempt` times, capped at 30s, for every attempt: the wrap-around of the
-- int64 shift never shows. A negative attempt counts as 0.
pub backoff-min :
    (a : ℕ)
    → (backoff (pos a) ≡ min backoff_cap (backoff_base * 2 ^ a))
      × (backoff (negsuc a) ≡ backoff_base)
unfolding backoff
backoff-min a = elim (dec_lt a 60) [
  | yes h ↦ (small a h, small 0 (omega arith))
  | no h ↦ (large a (omega arith), small 0 (omega arith))
]
