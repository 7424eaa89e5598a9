-- ===== src/Config/Load.antt =====
-- internal/config/config.go: `LoadEnv`, with the errors of all fields.
use Prim.Native.String.{String, ◌++◌ as append, compare}
use reading_lite_next.Prelude.{List, [], ◌∷◌, ◌++◌, map, ◌*◌, ◌^◌, ℤ, pos}
use reading_lite_next.Prelude.Sort.{sort_func}
use reading_lite_next.Config.Fields.{
  FieldError, Checked, EnvLibrary, Env, env_value, required, optional, required_by, optional_by,
  required_positive_int, optional_positive_int, required_positive_int32, SummaryProvider,
}
use reading_lite_next.Config.Checks.{
  optional_cors_allowed_origins, optional_summary_provider, optional_reasoning_effort,
  optional_max_output_tokens, validate_database_url, validate_listen_addr, validate_http_url,
  provider_key_problem, where_set,
}

pub record Config : Type 0 where
  pub api_token : String
  pub database_url : String
  pub openai_api_key : String
  pub anthropic_api_key : String
  pub provider : SummaryProvider
  pub model : String
  pub reasoning_effort : String
  pub max_output_tokens : ℤ
  pub r2_endpoint : String
  pub r2_region : String
  pub r2_access_key_id : String
  pub r2_secret_access_key : String
  pub r2_bucket : String
  pub resend_api_key : String
  pub notify_from : String
  pub notify_to : String
  pub pending_ttl : ℤ
  pub running_ttl : ℤ
  pub max_attempts : ℤ
  pub worker_concurrency : ℤ
  pub dispatch_buffer : ℤ
  pub pg_max_conns : ℤ
  pub listen_addr : String
  pub fetch_timeout : ℤ
  pub fetch_max_bytes : ℤ
  pub shutdown_timeout : ℤ
  pub cors_allowed_origins : List String

pub data Loaded : Type 0 where
  loaded : Config → Loaded
  rejected : List FieldError → Loaded

unfoldable pub joined : List (List FieldError) → List FieldError
joined [] = []
joined (e ∷ es) = e ++ joined es

abbrev pub positive_duration : String
positive_duration = "must be a positive duration"

module _ (lib : EnvLibrary) (env : Env) where
  abbrev pub anthropic_key : String
  anthropic_key = env_value env "ANTHROPIC_API_KEY"

  abbrev pub required_duration : String → Checked ℤ
  required_duration name = required_by lib.parse_duration env name positive_duration

  abbrev pub optional_duration : String → ℤ → Checked ℤ
  optional_duration name default = optional_by lib.parse_duration env name default positive_duration

  abbrev pub config : Config
  config = record {
    api_token = (required env "READER_API_TOKEN").value;
    database_url = (required env "DATABASE_URL").value;
    openai_api_key = (required env "OPENAI_API_KEY").value;
    anthropic_api_key = anthropic_key;
    provider = (optional_summary_provider lib env).value;
    model = optional env "SUMMARY_OPENAI_MODEL" "gpt-5.5";
    reasoning_effort = (optional_reasoning_effort lib env).value;
    max_output_tokens = (optional_max_output_tokens lib env).value;
    r2_endpoint = (required env "R2_ENDPOINT").value;
    r2_region = optional env "R2_REGION" "auto";
    r2_access_key_id = (required env "R2_ACCESS_KEY_ID").value;
    r2_secret_access_key = (required env "R2_SECRET_ACCESS_KEY").value;
    r2_bucket = (required env "R2_BUCKET").value;
    resend_api_key = (required env "RESEND_API_KEY").value;
    notify_from = (required env "NOTIFY_FROM").value;
    notify_to = (required env "NOTIFY_TO").value;
    pending_ttl = (required_duration "PENDING_TTL").value;
    running_ttl = (required_duration "RUNNING_TTL").value;
    max_attempts = (required_positive_int env "MAX_ATTEMPTS").value;
    worker_concurrency = (required_positive_int env "WORKER_CONCURRENCY").value;
    dispatch_buffer = (required_positive_int env "DISPATCH_BUFFER").value;
    pg_max_conns = (required_positive_int32 env "PG_MAX_CONNS").value;
    listen_addr = (required env "LISTEN_ADDR").value;
    fetch_timeout = (optional_duration "FETCH_TIMEOUT" (pos (30 * 10 ^ 9))).value;
    fetch_max_bytes = (optional_positive_int env "FETCH_MAX_BYTES" (pos (10 * 2 ^ 20))).value;
    shutdown_timeout = (optional_duration "SHUTDOWN_TIMEOUT" (pos (10 * 10 ^ 9))).value;
    cors_allowed_origins = (optional_cors_allowed_origins lib env).value;
  }

  -- in the order of the calls
  abbrev pub field_errors : List (List FieldError)
  field_errors =
      (required env "READER_API_TOKEN").errors
      ∷ (required env "DATABASE_URL").errors
      ∷ (required env "OPENAI_API_KEY").errors
      ∷ (required env "RESEND_API_KEY").errors
      ∷ (required_duration "PENDING_TTL").errors
      ∷ (required_duration "RUNNING_TTL").errors
      ∷ (required_positive_int env "MAX_ATTEMPTS").errors
      ∷ (required_positive_int env "WORKER_CONCURRENCY").errors
      ∷ (required_positive_int env "DISPATCH_BUFFER").errors
      ∷ (required_positive_int32 env "PG_MAX_CONNS").errors
      ∷ (required env "LISTEN_ADDR").errors
      ∷ (optional_duration "FETCH_TIMEOUT" (pos (30 * 10 ^ 9))).errors
      ∷ (optional_positive_int env "FETCH_MAX_BYTES" (pos (10 * 2 ^ 20))).errors
      ∷ (optional_duration "SHUTDOWN_TIMEOUT" (pos (10 * 10 ^ 9))).errors
      ∷ (optional_cors_allowed_origins lib env).errors
      ∷ (optional_summary_provider lib env).errors
      ∷ (optional_reasoning_effort lib env).errors
      ∷ (optional_max_output_tokens lib env).errors
      ∷ provider_key_problem lib config.provider anthropic_key
      ∷ (required env "R2_ENDPOINT").errors
      ∷ (required env "R2_ACCESS_KEY_ID").errors
      ∷ (required env "R2_SECRET_ACCESS_KEY").errors
      ∷ (required env "R2_BUCKET").errors
      ∷ (required env "NOTIFY_FROM").errors
      ∷ (required env "NOTIFY_TO").errors
      ∷ where_set lib (validate_database_url lib) config.database_url
      ∷ where_set lib (validate_listen_addr lib) config.listen_addr
      ∷ where_set lib (validate_http_url lib "R2_ENDPOINT") config.r2_endpoint
      ∷ []

  unfoldable pub load_env : Loaded
  unfolding joined
  load_env = elim (joined field_errors) [ [] ↦ loaded config | e ∷ es ↦ rejected (e ∷ es) ]

abbrev error_line : FieldError → String
error_line e = append e.name (append " " e.problem)

lines_text : List String → String
lines_text [] = ""
lines_text (line ∷ []) = line
lines_text (line ∷ next ∷ lines) = append line (append "; " (lines_text (next ∷ lines)))

-- `fieldErrors.Error`
unfoldable pub error_text : List FieldError → String
unfolding lines_text
error_text es = append "invalid config: " (lines_text (sort_func compare (map error_line es)))
