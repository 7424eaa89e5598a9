-- ===== src/Prelude/Text.antt =====
-- Decimal numbers, Go's `time.Duration.String` and `strings.TrimSpace`.
use Prim.Native.Nat.{ℕ, zero, suc, ◌/◌, ◌%◌, ◌^◌, ◌+◌}
use Prim.Native.String.{String, ◌++◌, slice}
use Prim.Native.Char.{Char, code}
use mathlib.Core.Bool.{Bool, true, false, ◌&&◌, ◌||◌}
use text.Mathlib.Text.{◌==◌ as str_eq}
use reading_lite_next.Prelude.Int.{ℤ, pos, negsuc}
use reading_lite_next.Prelude.Tests.{◌==◌, ltb, leb, if◌then◌else◌}

abbrev digit : ℕ → String
digit d = slice "0123456789" d (d + 1)

-- A number has at most as many digits as its value plus one.
digits : ℕ → ℕ → String → String
digits zero n out = out
digits (suc fuel) n out =
    let rest = digits fuel (n / 10) (digit (n % 10) ++ out) in
    if ltb n 10 then digit n ++ out else rest

-- `%d` of a number that is not negative
pub decimal : ℕ → String
unfolding digits
decimal n = digits (suc n) n ""

pub decimal_ℤ : ℤ → String
decimal_ℤ (pos n) = decimal n
decimal_ℤ (negsuc n) = "-" ++ decimal (suc n)

-- `fmtFrac`: the fraction v % 10^prec with its trailing zeros left off, a point before it
fraction : ℕ → ℕ → Bool → String → String
fraction zero v printed out = if printed then "." ++ out else out
fraction (suc prec) v printed out =
    let d = v % 10 in
    if printed
    then fraction prec (v / 10) true (digit d ++ out)
    else if d == 0
    then fraction prec (v / 10) false out
    else fraction prec (v / 10) true (digit d ++ out)

-- a duration of at least one second
clock_text : ℕ → String
unfolding fraction decimal
clock_text u =
    let secs = u / 10 ^ 9 in
    let s = decimal (secs % 60) ++ fraction 9 u false "s" in
    let mins = secs / 60 in
    if mins == 0
    then s
    else if mins / 60 == 0
    then decimal mins ++ ("m" ++ s)
    else decimal (mins / 60) ++ ("h" ++ (decimal (mins % 60) ++ ("m" ++ s)))

duration_abs : ℕ → String
unfolding clock_text fraction decimal
duration_abs u =
    if u == 0
    then "0s"
    else if ltb u 1000
    then decimal u ++ "ns"
    else if ltb u 1000000
    then decimal (u / 10 ^ 3) ++ fraction 3 u false "µs"
    else if ltb u 1000000000
    then decimal (u / 10 ^ 6) ++ fraction 6 u false "ms"
    else clock_text u

-- `Duration.String`
unfoldable pub duration_text : ℤ → String
unfolding duration_abs
duration_text (pos n) = duration_abs n
duration_text (negsuc n) = "-" ++ duration_abs (suc n)

-- `unicode.IsSpace`
abbrev pub is_space : Char → Bool
is_space c =
    let n = code c in
    leb 9 n && leb n 13
    || n == 32
    || n == 133
    || n == 160
    || n == 5760
    || leb 8192 n && leb n 8202
    || n == 8232
    || n == 8233
    || n == 8239
    || n == 8287
    || n == 12288

drop_space : String → String
drop_space String.[] = ""
drop_space (String.◌∷◌ c s) = let rest = drop_space s in if is_space c then rest else String.◌∷◌ c s

drop_end : String → String
drop_end String.[] = ""
drop_end (String.◌∷◌ c s) =
    let rest = drop_end s in if str_eq rest "" && is_space c then "" else String.◌∷◌ c rest

-- `strings.TrimSpace`
unfoldable pub trim_space : String → String
unfolding drop_space drop_end
trim_space s = drop_end (drop_space s)
