-- ===== src/Config/Fields.antt =====
-- internal/config/config.go: the fields of the environment. A field is its value, and the errors that
-- it adds, in order. `time.ParseDuration`, `url.Parse`, pgx and the splitting of host and port are
-- the operations of `EnvLibrary`; an `int` has 64 bits.
use Prim.Native.String.{String}
use Prim.Native.Char.{Char, code}
use reading_lite_next.Prelude.{
  ℕ, ◌^◌, ◌-◌, Bool, false, Option, none, some, List, [], ◌∷◌, ◌++◌, ltb, ◌==◌, str_eq, is_some,
  if◌then◌else◌, ℤ, pos, negsuc,
}
use reading_lite_next.Prelude.Text.{trim_space}
use reading_lite_next.Prelude.Parse.{atoi}

pub record FieldError : Type 0 where
  pub name : String
  pub problem : String

pub record Checked (A : Type 0) : Type 0 where
  pub value : A
  pub errors : List FieldError

abbrev pub fine : {A : Type 0} → A → Checked A
fine a = record { value = a; errors = [] }

abbrev pub broken : {A : Type 0} → A → String → String → Checked A
broken a name problem = record {
  value = a;
  errors = record { name = name; problem = problem } ∷ [];
}

-- `url.URL`, with its methods and the `sslmode` of its query
pub record EnvUrl : Type 0 where
  pub scheme : String
  pub host : String
  pub host_name : String
  pub port : String
  pub is_origin : Bool  -- no user, path, query, fragment or opaque part
  pub sslmode : String

pub record EnvLibrary : Type 0 where
  pub to_lower : String → String
  pub parse_duration : String → Option ℤ
  pub parse_url : String → Option EnvUrl
  pub pgx_parses : String → Bool
  pub split_host_port : String → Option (String × String)
  pub join_host_port : String → String → String

abbrev before : Char → Option (String × String) → Option (String × String)
before c none = none
before c (some (k, v)) = some (String.◌∷◌ c k, v)

-- `strings.Cut` at "="
cut : String → Option (String × String)
cut String.[] = none
cut (String.◌∷◌ c s) = let rest = cut s in if code c == 61 then some ("", s) else before c rest

abbrev pub Env : Type 0
Env = List String

named : String → Option (String × String) → Option String
named name none = none
named name (some (k, v)) = if str_eq k name then some v else none

-- the last entry of the name
last_value : String → Env → Option String
unfolding named cut
last_value name [] = none
last_value name (entry ∷ env) =
    let later = last_value name env in if is_some later then later else named name (cut entry)

abbrev or_empty : Option String → String
or_empty none = ""
or_empty (some v) = v

-- `strings.TrimSpace(values[name])`
unfoldable pub env_value : Env → String → String
unfolding last_value
env_value env name = trim_space (or_empty (last_value name env))

unfoldable pub required : Env → String → Checked String
required env name =
    let v = env_value env name in if str_eq v "" then broken v name "is required" else fine v

unfoldable pub optional : Env → String → String → String
optional env name default = let v = env_value env name in if str_eq v "" then default else v

abbrev pub positive : String → String → Option ℤ → Checked ℤ
positive name problem none = broken (pos 0) name problem
positive name problem (some (negsuc n)) = broken (pos 0) name problem
positive name problem (some (pos n)) = if n == 0 then broken (pos 0) name problem else fine (pos n)

-- a value that is `parse`d where it is not empty
unfoldable pub required_by : (String → Option ℤ) → Env → String → String → Checked ℤ
required_by parse env name problem =
    let raw = env_value env name in
    if str_eq raw "" then broken (pos 0) name "is required" else positive name problem (parse raw)

unfoldable pub optional_by : (String → Option ℤ) → Env → String → ℤ → String → Checked ℤ
optional_by parse env name default problem =
    let raw = env_value env name in
    if str_eq raw "" then fine default else positive name problem (parse raw)

abbrev pub required_positive_int : Env → String → Checked ℤ
required_positive_int env name = required_by atoi env name "must be a positive integer"

abbrev pub optional_positive_int : Env → String → ℤ → Checked ℤ
optional_positive_int env name default =
    optional_by atoi env name default "must be a positive integer"

abbrev max_int32 : ℕ
max_int32 = 2 ^ 31 - 1

abbrev pub above_int32 : ℤ → Bool
above_int32 (pos n) = ltb max_int32 n
above_int32 (negsuc n) = false

abbrev pub too_large : String → Checked ℤ → Checked ℤ
too_large name x = record {
  value = pos 0;
  errors = x.errors ++ (record { name = name; problem = "must fit in int32" } ∷ []);
}

unfoldable pub required_positive_int32 : Env → String → Checked ℤ
required_positive_int32 env name =
    let x = required_positive_int env name in if above_int32 x.value then too_large name x else x

-- one of two summarizers
pub data SummaryProvider : Type 0 where
  anthropic openai : SummaryProvider
