-- ===== src/Errors.antt =====
-- Go's error values: the sentinels of every package, `fmt.Errorf` with `%w`, and the rate limit
-- error of internal/dispatch/dispatch.go, with `errors.Is` and `errors.As` over the chain.
use Prim.Native.String.{◌++◌}
use reading_lite_next.Prelude.{
  ℕ, String, ◌≡◌, refl, ◌⊎◌, inl, inr, Bool, false, Option, none, some, ◌==◌, ℤ,
}

pub data Sentinel : Type 0 where
  canceled deadline_exceeded : Sentinel
  not_found conflict blob_not_found : Sentinel
  permanent invalid_url dimension multiple_json_values : Sentinel

abbrev pub sentinel_code : Sentinel → ℕ
sentinel_code canceled = 0
sentinel_code deadline_exceeded = 1
sentinel_code not_found = 2
sentinel_code conflict = 3
sentinel_code blob_not_found = 4
sentinel_code permanent = 5
sentinel_code invalid_url = 6
sentinel_code dimension = 7
sentinel_code multiple_json_values = 8

abbrev same_sentinel : Sentinel → Sentinel → Bool
same_sentinel s t = sentinel_code s == sentinel_code t

abbrev pub sentinel_text : Sentinel → String
sentinel_text canceled = "context canceled"
sentinel_text deadline_exceeded = "context deadline exceeded"
sentinel_text not_found = "not found"
sentinel_text conflict = "conflict"
sentinel_text blob_not_found = "blob not found"
sentinel_text permanent = "permanent"
sentinel_text invalid_url = "invalid reading url"
sentinel_text dimension = "vector: wrong dimension"
sentinel_text multiple_json_values = "bookmark JSON must contain one value"

-- `wrapped before e after` is `fmt.Errorf` with `%w` at `e`. A rate limit error has its delay, and
-- the error that it wraps, if there is one.
pub data Error : Type 0 where
  sentinel : Sentinel → Error
  plain : String → Error
  wrapped : String → Error → String → Error
  rate_limited : ℤ → Error
  rate_limited_by : ℤ → Error → Error

-- `err.Error()`
unfoldable pub message : Error → String
message (sentinel s) = sentinel_text s
message (plain t) = t
message (wrapped before e after) = before ++ (message e ++ after)
message (rate_limited d) = "rate limited"
message (rate_limited_by d e) = "rate limited: " ++ message e

-- `errors.Is(err, s)`
unfoldable pub is : Error → Sentinel → Bool
is (sentinel t) s = same_sentinel t s
is (plain t) s = false
is (wrapped before e after) s = is e s
is (rate_limited d) s = false
is (rate_limited_by d e) s = is e s

-- `errors.As(err, &rl)` for a `*RateLimitError`: the delay of the first one in the chain
unfoldable pub as_rate_limit : Error → Option ℤ
as_rate_limit (sentinel s) = none
as_rate_limit (plain t) = none
as_rate_limit (wrapped before e after) = as_rate_limit e
as_rate_limit (rate_limited d) = some d
as_rate_limit (rate_limited_by d e) = some d

pub data Result {ℓ} (A : Type ℓ) : Type ℓ where
  ok : A → Result A
  err : Error → Result A

-- `ctx.Err()`: `none` while the context is live.
abbrev pub Context : Type 0
Context = Option Sentinel

abbrev pub background : Context
background = none

pub Result-cases {ℓ} :
    {A : Type ℓ} (r : Result A) → ((a : A) × (r ≡ ok a)) ⊎ ((e : Error) × (r ≡ err e))
Result-cases (ok a) = inl (a, refl)
Result-cases (err e) = inr (e, refl)
