-- ===== src/Tests/Config.antt =====
-- The configuration, loaded from a concrete environment.
use reading_lite_next.Prelude.{
  ◌^◌, ◌*◌, ◌≡◌, refl, true, false, none, some, [], ◌∷◌, pos, str_eq, if◌then◌else◌,
}
use reading_lite_next.Prelude.Text.{trim_space}
use reading_lite_next.Prelude.Parse.{atoi, split_on, contains_text}
use reading_lite_next.Config.Fields.{EnvLibrary, EnvUrl, Env, env_value}
use reading_lite_next.Config.Checks.{parse_cors_origin, optional_cors_allowed_origins}
use reading_lite_next.Config.Load.{config}

abbrev database : EnvUrl
database = record {
  scheme = "postgres";
  host = "db";
  host_name = "db";
  port = "";
  is_origin = false;
  sslmode = "require";
}

abbrev site : EnvUrl
site = record {
  scheme = "https";
  host = "blobs.example:443";
  host_name = "blobs.example";
  port = "443";
  is_origin = true;
  sslmode = "";
}

abbrev library : EnvLibrary
library = record {
  to_lower = λ s. s;
  parse_duration = λ s. if str_eq s "5m" then some (pos (300 * 10 ^ 9)) else none;
  parse_url = λ s. some (if str_eq s "postgres://db/r?sslmode=require" then database else site);
  pgx_parses = λ s. true;
  split_host_port = λ s. if str_eq s ":8080" then some ("", "8080") else none;
  join_host_port = λ host port. host;
}

abbrev env : Env
env =
    "READER_API_TOKEN=old" ∷ "READER_API_TOKEN= secret "
    ∷ "DATABASE_URL=postgres://db/r?sslmode=require" ∷ "OPENAI_API_KEY=k" ∷ "ANTHROPIC_API_KEY=k"
    ∷ "RESEND_API_KEY=k" ∷ "PENDING_TTL=5m" ∷ "RUNNING_TTL=5m" ∷ "MAX_ATTEMPTS=3"
    ∷ "WORKER_CONCURRENCY=2" ∷ "DISPATCH_BUFFER=8" ∷ "PG_MAX_CONNS=4" ∷ "LISTEN_ADDR=:8080"
    ∷ "R2_ENDPOINT=https://blobs.example:443" ∷ "R2_ACCESS_KEY_ID=k" ∷ "R2_SECRET_ACCESS_KEY=k"
    ∷ "R2_BUCKET=b" ∷ "NOTIFY_FROM=a" ∷ "NOTIFY_TO=b"
    ∷ "CORS_ALLOWED_ORIGINS=https://blobs.example:443,https://blobs.example" ∷ []

origins_test : (config library env).cors_allowed_origins ≡ "https://blobs.example" ∷ []
unfolding optional_cors_allowed_origins env_value trim_space split_on parse_cors_origin atoi
    contains_text
origins_test = refl
