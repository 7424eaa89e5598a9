-- ===== src/Config/Checks.antt =====
-- internal/config/config.go: the fields that are more than a text or a number.
use Prim.Native.String.{String, ◌++◌ as append}
use reading_lite_next.Prelude.{
  Bool, false, not, ◌&&◌, ◌||◌, Option, none, some, List, [], ◌∷◌, ◌++◌, ltb, leb, str_eq, is_some,
  contains, if◌then◌else◌, ℤ, pos, negsuc,
}
use reading_lite_next.Prelude.Text.{trim_space}
use reading_lite_next.Prelude.Parse.{atoi, split_on, contains_text, cut_prefix}
use reading_lite_next.Config.Fields.{
  FieldError, Checked, fine, broken, EnvUrl, EnvLibrary, Env, env_value, SummaryProvider, anthropic,
  openai,
}

module _ (lib : EnvLibrary) where
  abbrev is_http : String → Bool
  is_http scheme = str_eq scheme "http" || str_eq scheme "https"

  abbrev ends_with_bracket : String → Bool
  ends_with_bracket String.[] = false
  ends_with_bracket (String.◌∷◌ c String.[]) = str_eq (String.◌∷◌ c "") "]"
  ends_with_bracket (String.◌∷◌ c s) = ends_with_bracket s

  -- a text between 1 and 65535
  unfoldable pub is_port : String → Bool
  is_port port = elim (atoi port) [
    | none ↦ false
    | some n ↦ elim n [ pos k ↦ leb 1 k && leb k 65535 | negsuc k ↦ false ]
  ]

  unfoldable pub origin_host : String → String → String
  origin_host host port =
      if not (str_eq port "")
      then lib.join_host_port host port
      else if contains_text ":" host
      then append "[" (append host "]")
      else host

  origin_port : String → String → String
  origin_port scheme port =
      if str_eq scheme "https" && str_eq port "443" || str_eq scheme "http" && str_eq port "80"
      then ""
      else port

  origin_of : Option EnvUrl → Option String
  unfolding origin_port origin_host is_port
  origin_of none = none
  origin_of (some u) =
      let scheme = lib.to_lower u.scheme in
      let host = lib.to_lower u.host_name in
      if str_eq u.host ""
        || not (is_http scheme)
        || (not u.is_origin || str_eq (trim_space host) "")
      then none
      else if str_eq u.port ""
          && contains_text ":" u.host
          && (not (is_some (cut_prefix "[" u.host)) || not (ends_with_bracket u.host))
      then none
      else if not (str_eq u.port "") && not (is_port u.port)
      then none
      else some (append scheme (append "://" (origin_host host (origin_port scheme u.port))))

  unfoldable pub parse_cors_origin : String → Option String
  unfolding origin_of
  parse_cors_origin part =
      let raw = trim_space part in
      if str_eq raw "" || str_eq raw "*" then none else origin_of (lib.parse_url raw)

  next_origin : Option String → List String → Option (List String)
  next_origin none seen = none
  next_origin (some origin) seen =
      some (if contains origin seen then seen else seen ++ (origin ∷ []))

  -- the loop over the parts, with the origins so far
  origins : List String → Option (List String) → Option (List String)
  unfolding next_origin parse_cors_origin
  origins [] seen = seen
  origins (part ∷ parts) none = none
  origins (part ∷ parts) (some seen) = origins parts (next_origin (parse_cors_origin part) seen)

  abbrev cors_result : Option (List String) → Checked (List String)
  cors_result none = broken [] "CORS_ALLOWED_ORIGINS" "must contain exact http or https origins"
  cors_result (some out) = fine out

  unfoldable pub optional_cors_allowed_origins : Env → Checked (List String)
  unfolding origins
  optional_cors_allowed_origins env =
      let raw = env_value env "CORS_ALLOWED_ORIGINS" in
      if str_eq raw "" then fine [] else cors_result (origins (split_on "," raw) (some []))

  unfoldable pub optional_summary_provider : Env → Checked SummaryProvider
  optional_summary_provider env =
      let raw = lib.to_lower (env_value env "SUMMARY_PROVIDER") in
      if str_eq raw "" || str_eq raw "anthropic"
      then fine anthropic
      else if str_eq raw "openai"
      then fine openai
      else broken anthropic "SUMMARY_PROVIDER" "must be anthropic or openai"

  abbrev efforts : List String
  efforts = "none" ∷ "minimal" ∷ "low" ∷ "medium" ∷ "high" ∷ "xhigh" ∷ []

  unfoldable pub optional_reasoning_effort : Env → Checked String
  optional_reasoning_effort env =
      let raw = lib.to_lower (env_value env "SUMMARY_OPENAI_REASONING_EFFORT") in
      if str_eq raw ""
      then fine "medium"
      else if contains raw efforts
      then fine raw
      else broken "medium" "SUMMARY_OPENAI_REASONING_EFFORT"
          "must be none, minimal, low, medium, high, or xhigh"

  abbrev token_problem : Checked ℤ
  token_problem =
      broken (pos 0) "SUMMARY_OPENAI_MAX_OUTPUT_TOKENS" "must be an integer of at least 16"

  abbrev pub tokens : Option ℤ → Checked ℤ
  tokens none = token_problem
  tokens (some (negsuc n)) = token_problem
  tokens (some (pos n)) = if ltb n 16 then token_problem else fine (pos n)

  unfoldable pub optional_max_output_tokens : Env → Checked ℤ
  optional_max_output_tokens env =
      let raw = env_value env "SUMMARY_OPENAI_MAX_OUTPUT_TOKENS" in
      if str_eq raw "" then fine (pos 25000) else tokens (atoi raw)

  abbrev problem : String → String → List FieldError
  problem name text = record { name = name; problem = text } ∷ []

  unfoldable pub validate_database_url : String → List FieldError
  validate_database_url raw = elim (lib.parse_url raw) [
    | none ↦ problem "DATABASE_URL" "must be a valid postgres URL"
    | some u ↦
        if str_eq u.host ""
        then problem "DATABASE_URL" "must be a valid postgres URL"
        else if not (str_eq u.scheme "postgres") && not (str_eq u.scheme "postgresql")
        then problem "DATABASE_URL" "must use postgres or postgresql scheme"
        else if not (lib.pgx_parses raw)
        then problem "DATABASE_URL" "must be parseable by pgx"
        else if contains u.sslmode ("require" ∷ "verify-ca" ∷ "verify-full" ∷ [])
        then []
        else problem "DATABASE_URL" "must set sslmode=require, verify-ca, or verify-full"
  ]

  abbrev pub listen_problems : Option (String × String) → List FieldError
  listen_problems none = problem "LISTEN_ADDR" "must be host:port"
  listen_problems (some (host, port)) =
      if str_eq port ""
      then problem "LISTEN_ADDR" "must be host:port"
      else if is_port port
      then []
      else problem "LISTEN_ADDR" "must use a valid TCP port"

  unfoldable pub validate_listen_addr : String → List FieldError
  validate_listen_addr raw = listen_problems (lib.split_host_port raw)

  abbrev pub http_url_problems : String → Option EnvUrl → List FieldError
  http_url_problems name none = problem name "must be a valid URL"
  http_url_problems name (some u) =
      if str_eq u.host ""
      then problem name "must be a valid URL"
      else if not (str_eq u.scheme "https")
      then problem name "must use https"
      else []

  unfoldable pub validate_http_url : String → String → List FieldError
  validate_http_url name raw = http_url_problems name (lib.parse_url raw)

  unfoldable pub provider_key_problem : SummaryProvider → String → List FieldError
  provider_key_problem anthropic key =
      if str_eq key "" then problem "ANTHROPIC_API_KEY" "is required" else []
  provider_key_problem openai key = []

  -- a check of a value that is not empty
  unfoldable pub where_set : (String → List FieldError) → String → List FieldError
  where_set validate v = if str_eq v "" then [] else validate v
