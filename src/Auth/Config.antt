-- ===== src/Auth/Config.antt =====
-- auth/config/config.go: the configuration with its options, its sources and its check.
pub mod Laws
use proxy_common.Common.{
  ◌≡◌, Bool, true, false, Option, none, some, List, [], ◌∷◌, ℤ, pos, ltb_ℤ, leb_ℤ, if◌then◌else◌,
}
use proxy_common.Common.Bytes.{Bytes, codes, bytes_eq}
use proxy_common.Common.Atoi.{atoi}

-- auth/puzzle/puzzle.go: `Argon2Config`
pub record Argon2Config : Type 0 where
  pub memory_kb : ℤ
  pub time : ℤ
  pub threads : ℤ
  pub key_len : ℤ

pub record Config : Type 0 where
  pub algorithm : Bytes
  pub jwt_secret : Bytes
  pub puzzle_difficulty : ℤ
  pub requests_per_token : ℤ
  pub token_expiry_minutes : ℤ
  pub argon2_params : Argon2Config

-- `Option` of the source: a function that changes a configuration
abbrev pub Setting : Type 0
Setting = Config → Config

abbrev pub default_config : Config
default_config = record {
  algorithm = codes "argon2id";
  jwt_secret = [];
  puzzle_difficulty = pos 1;
  requests_per_token = pos 100;
  token_expiry_minutes = pos 10;
  argon2_params = record { memory_kb = pos 16384; time = pos 4; threads = pos 4; key_len = pos 32 };
}

unfoldable pub apply_settings : Config → List Setting → Config
apply_settings cfg [] = cfg
apply_settings cfg (opt ∷ opts) = apply_settings (opt cfg) opts

unfoldable pub new : List Setting → Config
unfolding apply_settings
new opts = apply_settings default_config opts

abbrev pub with_jwt_secret : Bytes → Setting
with_jwt_secret secret c = record c { jwt_secret = secret }

abbrev pub with_algorithm : Bytes → Setting
with_algorithm algorithm c = record c { algorithm = algorithm }

abbrev pub with_difficulty : ℤ → Setting
with_difficulty difficulty c = record c { puzzle_difficulty = difficulty }

abbrev pub with_requests_per_token : ℤ → Setting
with_requests_per_token requests c = record c { requests_per_token = requests }

abbrev pub with_token_expiry : ℤ → Setting
with_token_expiry minutes c = record c { token_expiry_minutes = minutes }

abbrev pub with_argon2_params : Argon2Config → Setting
with_argon2_params params c = record c { argon2_params = params }

abbrev pub with_argon2_memory : ℤ → Setting
with_argon2_memory n c = record c { argon2_params = record c.argon2_params { memory_kb = n } }

abbrev pub with_argon2_time : ℤ → Setting
with_argon2_time n c = record c { argon2_params = record c.argon2_params { time = n } }

abbrev pub with_argon2_threads : ℤ → Setting
with_argon2_threads n c = record c { argon2_params = record c.argon2_params { threads = n } }

abbrev pub with_argon2_key_len : ℤ → Setting
with_argon2_key_len n c = record c { argon2_params = record c.argon2_params { key_len = n } }

pub data LoadError : Type 0 where
  read_failed parse_failed jwt_secret_missing : LoadError

pub data Loaded : Type 0 where
  loaded : Config → Loaded
  failed : LoadError → Loaded

-- `LoadFromFile`: `read_file` is `os.ReadFile`, `decode` is `json.Unmarshal` into a `Config`.
unfoldable pub load_from_file : (Bytes → Option Bytes) → (Bytes → Option Config) → Bytes → Loaded
load_from_file read_file decode path = elim (read_file path) [
  | none ↦ failed read_failed
  | some contents ↦ elim (decode contents) [ none ↦ failed parse_failed | some c ↦ loaded c ]
]

-- `Load`: `env` is `os.Getenv`, which answers `""` for a variable that is not set.
unfoldable pub load : (Bytes → Bytes) → (Bytes → Option Bytes) → (Bytes → Option Config) → Loaded
unfolding load_from_file
load env read_file decode =
    let config_file = env (codes "CONFIG_FILE") in
    load_from_file read_file decode
      (if bytes_eq config_file [] then codes "auth_config.json" else config_file)

-- one `if s := os.Getenv(…); s != ""` with `strconv.Atoi`
unfoldable pub env_int : (Bytes → Bytes) → Bytes → (ℤ → Setting) → Setting
env_int env name setting c =
    if bytes_eq (env name) [] then c else elim (atoi (env name)) [ none ↦ c | some n ↦ setting n c ]

unfoldable pub env_text : (Bytes → Bytes) → Bytes → (Bytes → Setting) → Setting
env_text env name setting c = if bytes_eq (env name) [] then c else setting (env name) c

-- the settings of `LoadFromEnv` behind the secret, in order
unfoldable pub env_settings : (Bytes → Bytes) → List Setting
env_settings env =
    env_text env (codes "ALGORITHM") with_algorithm
    ∷ env_int env (codes "PUZZLE_DIFFICULTY") with_difficulty
    ∷ env_int env (codes "REQUESTS_PER_TOKEN") with_requests_per_token
    ∷ env_int env (codes "TOKEN_EXPIRY_MINUTES") with_token_expiry
    ∷ env_int env (codes "ARGON2_MEMORY_KB") with_argon2_memory
    ∷ env_int env (codes "ARGON2_TIME") with_argon2_time
    ∷ env_int env (codes "ARGON2_THREADS") with_argon2_threads
    ∷ env_int env (codes "ARGON2_KEY_LEN") with_argon2_key_len
    ∷ []

unfoldable pub load_from_env : (Bytes → Bytes) → Loaded
load_from_env env =
    let secret = env (codes "JWT_SECRET") in
    if bytes_eq secret []
    then failed jwt_secret_missing
    else loaded (apply_settings (with_jwt_secret secret (new [])) (env_settings env))

-- The errors of `Validate`.
pub data Invalid : Type 0 where
  no_secret negative_difficulty requests_not_positive expiry_not_positive : Invalid
  memory_not_positive time_not_positive threads_not_positive key_len_not_positive : Invalid

unfoldable pub validate : Config → Option Invalid
validate c =
    if bytes_eq c.jwt_secret []
    then some no_secret
    else if ltb_ℤ c.puzzle_difficulty (pos 0)
    then some negative_difficulty
    else if leb_ℤ c.requests_per_token (pos 0)
    then some requests_not_positive
    else if leb_ℤ c.token_expiry_minutes (pos 0)
    then some expiry_not_positive
    else if leb_ℤ c.argon2_params.memory_kb (pos 0)
    then some memory_not_positive
    else if leb_ℤ c.argon2_params.time (pos 0)
    then some time_not_positive
    else if leb_ℤ c.argon2_params.threads (pos 0)
    then some threads_not_positive
    else if leb_ℤ c.argon2_params.key_len (pos 0)
    then some key_len_not_positive
    else none
