-- ===== src/Auth/Config/Laws.antt =====
-- What `Validate` and `LoadFromEnv` (auth/config/config.go) guarantee.
use proxy_common.Common.{
  ◌≡◌, ◌∙◌, ap, ◌≢◌, ◌↔◌, refl, false, none, [], ◌∷◌, arith, ℤ, pos, ◌≤ℤ◌, ◌<ℤ◌,
}
use proxy_common.Common.Bytes.{Bytes, codes, bytes_eq, bytes_eq_iff, bytes_has_eq}
use proxy_common.Common.GoMap.{GoMap, lookup, lookup_or}
use proxy_common.Common.Int64.{Fits}
use proxy_common.Common.Decimal.{decimal_ℤ}
use proxy_common.Common.Atoi.{atoi, atoi-decimal_ℤ}
use proxy_common.Auth.Config.{
  Config, Setting, loaded, validate, env_int, env_text, env_settings, load_from_env, apply_settings,
  new, default_config, with_jwt_secret, with_algorithm, with_difficulty, with_requests_per_token,
  with_token_expiry, with_argon2_memory, with_argon2_time, with_argon2_threads, with_argon2_key_len,
}

-- a configuration that the service can run with
pub record IsValid (c : Config) : Type 0 where
  pub secret : c.jwt_secret ≢ []
  pub difficulty : pos 0 ≤ℤ c.puzzle_difficulty
  pub requests : pos 0 <ℤ c.requests_per_token
  pub expiry : pos 0 <ℤ c.token_expiry_minutes
  pub memory : pos 0 <ℤ c.argon2_params.memory_kb
  pub time : pos 0 <ℤ c.argon2_params.time
  pub threads : pos 0 <ℤ c.argon2_params.threads
  pub key_len : pos 0 <ℤ c.argon2_params.key_len

-- `validate` returns no error exactly for the valid configurations: a secret that is not empty, a
-- difficulty that is not negative, and positive numbers elsewhere.
pub validate-IsValid : (c : Config) → (validate c ≡ none) ↔ IsValid c
unfolding validate
validate-IsValid c = ground (arith, bytes_eq_iff c.jwt_secret [])

-- An environment that holds a configuration, each number in decimal.
abbrev pub variables : Config → GoMap Bytes Bytes
variables c =
    (codes "JWT_SECRET", c.jwt_secret)
    ∷ (codes "ALGORITHM", c.algorithm)
    ∷ (codes "PUZZLE_DIFFICULTY", decimal_ℤ c.puzzle_difficulty)
    ∷ (codes "REQUESTS_PER_TOKEN", decimal_ℤ c.requests_per_token)
    ∷ (codes "TOKEN_EXPIRY_MINUTES", decimal_ℤ c.token_expiry_minutes)
    ∷ (codes "ARGON2_MEMORY_KB", decimal_ℤ c.argon2_params.memory_kb)
    ∷ (codes "ARGON2_TIME", decimal_ℤ c.argon2_params.time)
    ∷ (codes "ARGON2_THREADS", decimal_ℤ c.argon2_params.threads)
    ∷ (codes "ARGON2_KEY_LEN", decimal_ℤ c.argon2_params.key_len)
    ∷ []

pub env_of : Config → Bytes → Bytes
unfolding lookup
env_of c name = lookup_or [] name (variables c)

-- every number is an `int`
pub record IsSized (c : Config) : Type 0 where
  pub difficulty : Fits c.puzzle_difficulty
  pub requests : Fits c.requests_per_token
  pub expiry : Fits c.token_expiry_minutes
  pub memory : Fits c.argon2_params.memory_kb
  pub time : Fits c.argon2_params.time
  pub threads : Fits c.argon2_params.threads
  pub key_len : Fits c.argon2_params.key_len

atoi-nil : atoi [] ≡ none
unfolding atoi
atoi-nil = refl

env_int-decimal_ℤ :
    (env : Bytes → Bytes) (name : Bytes) (setting : ℤ → Setting) (a : ℤ) (c : Config)
    → env name ≡ decimal_ℤ a
    → Fits a
    → env_int env name setting c ≡ setting a c
unfolding env_int
env_int-decimal_ℤ env name setting a c e fits =
    let filled : bytes_eq (decimal_ℤ a) [] ≡ false =
      ground (arith, bytes_eq_iff (decimal_ℤ a) [], atoi-decimal_ℤ a fits, atoi-nil) in
    rw (e, filled, atoi-decimal_ℤ a fits)

env_text-filled :
    (env : Bytes → Bytes) (name : Bytes) (setting : Bytes → Setting) (t : Bytes) (c : Config)
    → env name ≡ t
    → t ≢ []
    → env_text env name setting c ≡ setting t c
unfolding env_text
env_text-filled env name setting t c e h = rw e (ground (arith, bytes_eq_iff t []))

all_settings :
    (c : Config)
    → c.algorithm ≢ []
    → IsSized c
    → apply_settings (with_jwt_secret c.jwt_secret default_config) (env_settings (env_of c)) ≡ c
unfolding apply_settings env_settings env_of bytes_eq
all_settings c algorithm sized =
    let number = env_int-decimal_ℤ (env_of c) in
    rw (
      env_text-filled (env_of c) (codes "ALGORITHM") with_algorithm c.algorithm _ refl algorithm,
      number (codes "PUZZLE_DIFFICULTY") with_difficulty c.puzzle_difficulty _ refl
          sized.difficulty,
      number (codes "REQUESTS_PER_TOKEN") with_requests_per_token c.requests_per_token _ refl
          sized.requests,
      number (codes "TOKEN_EXPIRY_MINUTES") with_token_expiry c.token_expiry_minutes _ refl
          sized.expiry,
      number (codes "ARGON2_MEMORY_KB") with_argon2_memory c.argon2_params.memory_kb _ refl
          sized.memory,
      number (codes "ARGON2_TIME") with_argon2_time c.argon2_params.time _ refl sized.time,
      number (codes "ARGON2_THREADS") with_argon2_threads c.argon2_params.threads _ refl
          sized.threads,
      number (codes "ARGON2_KEY_LEN") with_argon2_key_len c.argon2_params.key_len _ refl
          sized.key_len,
    )

load-filled :
    (env : Bytes → Bytes) (secret : Bytes)
    → env (codes "JWT_SECRET") ≡ secret
    → bytes_eq secret [] ≡ false
    → load_from_env env
      ≡ loaded (apply_settings (with_jwt_secret secret default_config) (env_settings env))
unfolding load_from_env new
load-filled env secret e filled = rw (e, filled)

-- A configuration that is written to the environment, with a secret and an algorithm that are not
-- empty, is loaded back unchanged.
pub load_from_env-env_of :
    (c : Config)
    → c.jwt_secret ≢ []
    → c.algorithm ≢ []
    → IsSized c
    → load_from_env (env_of c) ≡ loaded c
load_from_env-env_of c secret algorithm sized =
    let filled : bytes_eq c.jwt_secret [] ≡ false = ground (arith, bytes_eq_iff c.jwt_secret []) in
    load-filled (env_of c) c.jwt_secret (unfold env_of bytes_eq in refl) filled
    ∙ ap loaded (all_settings c algorithm sized)
