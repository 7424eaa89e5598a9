-- ===== src/Config/Valid.antt =====
-- internal/config/config.go: what a loaded configuration guarantees.
use Prim.Native.String.{String}
use reading_lite_next.Prelude.{
  ℕ, zero, suc, ◌^◌, ◌≡◌, ◌≢◌, ◌⊎◌, true, some, List, [], ◌∷◌, ◌&&◌, ℤ, pos, ltb_ℤ,
}
use reading_lite_next.Config.Fields.{FieldError, EnvUrl, EnvLibrary, openai}
use reading_lite_next.Config.Checks.{is_port}
use reading_lite_next.Config.Load.{Config}

-- Every duration and count is positive, the connections fit in 32 bits, both summarizers have
-- their key (Anthropic unless OpenAI is chosen), the address to listen on has a port between 1 and 65535, and the blob store is reached over https.
pub record IsValid (lib : EnvLibrary) (cfg : Config) : Type 0 where
  pub api_token : cfg.api_token ≢ ""
  pub database_url : cfg.database_url ≢ ""
  pub openai_api_key : cfg.openai_api_key ≢ ""
  pub pending_ttl : ltb_ℤ (pos 0) cfg.pending_ttl ≡ true
  pub running_ttl : ltb_ℤ (pos 0) cfg.running_ttl ≡ true
  pub max_attempts : ltb_ℤ (pos 0) cfg.max_attempts ≡ true
  pub worker_concurrency : ltb_ℤ (pos 0) cfg.worker_concurrency ≡ true
  pub dispatch_buffer : ltb_ℤ (pos 0) cfg.dispatch_buffer ≡ true
  pub pg_max_conns : ltb_ℤ (pos 0) cfg.pg_max_conns && ltb_ℤ cfg.pg_max_conns (pos (2 ^ 31)) ≡ true
  pub fetch_timeout : ltb_ℤ (pos 0) cfg.fetch_timeout ≡ true
  pub fetch_max_bytes : ltb_ℤ (pos 0) cfg.fetch_max_bytes ≡ true
  pub shutdown_timeout : ltb_ℤ (pos 0) cfg.shutdown_timeout ≡ true
  pub max_output_tokens : ltb_ℤ (pos 15) cfg.max_output_tokens ≡ true
  pub provider : (cfg.provider ≡ openai) ⊎ (cfg.anthropic_api_key ≢ "")
  pub listen_addr :
      (pair : String × String) × (lib.split_host_port cfg.listen_addr ≡ some pair)
      × (is_port lib pair.1 ≡ true)
  pub r2_endpoint : (u : EnvUrl) × (lib.parse_url cfg.r2_endpoint ≡ some u) × (u.scheme ≡ "https")

-- the errors of the nth field
abbrev nth : List (List FieldError) → ℕ → List FieldError
nth [] n = []
nth (e ∷ es) zero = e
nth (e ∷ es) (suc n) = nth es n

abbrev Positive : ℤ → Type 0
Positive n = ltb_ℤ (pos 0) n ≡ true

abbrev positive_integer : String
positive_integer = "must be a positive integer"

abbrev FitsInt32 : ℤ → Type 0
FitsInt32 n = ltb_ℤ (pos 0) n && ltb_ℤ n (pos (2 ^ 31)) ≡ true
