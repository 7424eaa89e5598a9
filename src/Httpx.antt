-- ===== src/Httpx.antt =====
-- internal/httpx/httpx.go: the errors of an upstream's answer, and its `Retry-After`. The parser of
-- HTTP dates and the wall clock are a parameter: `until` is the time left to a date.
pub mod Delay
use Prim.Native.String.{String, ◌++◌}
use reading_lite_next.Prelude.{
  ℕ, ◌+◌, ◌-◌, ◌*◌, ◌%◌, ◌^◌, Option, none, some, ltb, leb, ◌==◌, ◌&&◌, str_eq, if◌then◌else◌, ℤ,
  pos, negsuc, ltb_ℤ,
}
use reading_lite_next.Prelude.Text.{decimal}
use reading_lite_next.Prelude.Parse.{atoi}
use reading_lite_next.Errors.{Error, plain, wrapped, rate_limited_by, sentinel, permanent}
use reading_lite_next.Reading.{Duration}
use reading_lite_next.Dispatch.{backoff_cap}

-- `time.Duration(secs) * time.Second`, in 64 bits
unfoldable pub seconds : ℕ → Duration
seconds n =
    let wrapped = n * 10 ^ 9 % 2 ^ 64 in
    if ltb wrapped (2 ^ 63) then pos wrapped else negsuc (2 ^ 64 - wrapped - 1)

module _ (until : String → Option Duration) where
  by_date : Option Duration → Duration
  by_date none = pos 0
  by_date (some d) = if ltb_ℤ (pos 0) d then d else pos 0

  by_seconds : Option ℤ → Option Duration → Duration
  unfolding seconds by_date
  by_seconds (some (pos n)) date = seconds n
  by_seconds (some (negsuc n)) date = pos 0
  by_seconds none date = by_date date

  unfoldable pub retry_after : String → Duration
  unfolding by_seconds
  retry_after v = if str_eq v "" then pos 0 else by_seconds (atoi v) (until v)

  unfoldable pub rate_limit_delay : String → Duration
  unfolding retry_after
  rate_limit_delay header =
      let d = retry_after header in if ltb_ℤ d (pos (10 ^ 9)) then pos backoff_cap else d

  -- `ClassifyResponse`: `snippet` is the trimmed start of the body
  unfoldable pub classify_response : String → ℕ → String → String → Error
  unfolding rate_limit_delay
  classify_response svc status header snippet =
      if status == 429
      then rate_limited_by (rate_limit_delay header)
          (plain (svc ++ (": rate limited: " ++ snippet)))
      else if leb 400 status && ltb status 500
      then wrapped "" (sentinel permanent)
          (": " ++ (svc ++ (": status " ++ (decimal status ++ (": " ++ snippet)))))
      else plain (svc ++ (": status " ++ (decimal status ++ (": " ++ snippet))))
