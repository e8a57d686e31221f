-- ===== src/Config/Settings.antt =====
-- config.go's Settings and Load. godotenv and the validator of struct tags are parameters, and so
-- are filepath.Join and time.ParseDuration.
use hexagonal_backend.Common.{ℕ, String, Bool, true, false, Option, none, some, List, if◌then◌else◌}
use hexagonal_backend.Common.Int.{ℤ}
use hexagonal_backend.Common.Text.{is_empty, str_eq}
use hexagonal_backend.Common.Result.{Result, ok, err, ◌>>=◌}
use hexagonal_backend.Config.{Variables, ClientConfig, parse_client_configs}
use hexagonal_backend.Config.Parse.{
  normalize_port, parse_cors_origins, parse_comma_separated, parse_scope_allowlist, parse_redis_db,
  parse_rate_limit_per_min, parse_rate_limit_window,
}
use hexagonal_backend.Errors.{Error, plain}

pub record ServerConfig : Type 0 where
  pub port : String
  pub cors_origins : List String
  pub cookie_secure : Bool
  pub metrics_addr : String
  pub rate_limit_per_min : ℕ
  pub rate_limit_window : ℕ

pub record JwtConfig : Type 0 where
  pub private_key_path : String
  pub public_key_path : String
  pub issuer : String
  pub kid : String

pub record FileRepositoryConfig : Type 0 where
  pub dir : String
  pub user_file_name : String
  pub refresh_token_file_name : String
  pub grant_file_name : String

pub record MongoConfig : Type 0 where
  pub host : String
  pub username : String
  pub password : String
  pub auth_source : String
  pub database : String
  pub direct : Bool

pub record RedisOptions : Type 0 where
  pub addr : String
  pub password : String
  pub db : ℕ

pub record OauthConfig : Type 0 where
  pub clients : List ClientConfig
  pub post_logout_redirect_allowlist : List String
  pub scope_allowlist : List String

pub record SmtpConfig : Type 0 where
  pub host : String
  pub port : String
  pub from : String

pub record CryptoConfig : Type 0 where
  pub email_encryption_key : String
  pub email_blind_index_key : String

pub record Settings : Type 0 where
  pub server : ServerConfig
  pub jwt : JwtConfig
  pub repository_type : String
  pub file_repository : Option FileRepositoryConfig
  pub mongo : Option MongoConfig
  pub redis : RedisOptions
  pub oauth : OauthConfig
  pub smtp : Option SmtpConfig
  pub app_base_url : String
  pub crypto : CryptoConfig

-- parseFileRepositoryConfig
unfoldable pub parse_file_repository_config : Variables → FileRepositoryConfig
parse_file_repository_config getenv = record {
  dir = getenv "FILE_DIR";
  user_file_name = getenv "USER_FILE_PATH";
  refresh_token_file_name = "refresh_tokens.json";
  grant_file_name = "grants.json";
}

-- parseMongoConfig
unfoldable pub parse_mongo_config : Variables → MongoConfig
parse_mongo_config getenv = record {
  host = getenv "MONGO_HOST";
  username = getenv "MONGO_USER";
  password = getenv "MONGO_PASSWORD";
  auth_source = getenv "MONGO_AUTH_SOURCE";
  database = getenv "MONGO_DATABASE";
  direct = true;
}

parse_smtp_config : Variables → Option SmtpConfig
parse_smtp_config getenv =
    let host = getenv "SMTP_HOST" in
    if is_empty host
    then none
    else some (record { host = host; port = getenv "SMTP_PORT"; from = getenv "SMTP_FROM" })

-- What godotenv.Load makes of a file: the variables of the process with those of the file, or an
-- error, fs.ErrNotExist or another.
pub data EnvFile : Type 0 where
  loaded : Variables → EnvFile
  missing broken : EnvFile

pub record Library : Type 0 where
  pub load_file : String → EnvFile
  pub join_path : String → String → String
  pub parse_duration : String → Option ℤ
  pub validate : Settings → Option Error

-- envFilePath
unfoldable pub env_file_path : Library → Variables → String → String × Bool
env_file_path lib getenv entry_path =
    let path = getenv "ENV_PATH" in
    if is_empty path then (lib.join_path entry_path ".env", false) else (path, true)

-- The first part of Load: the variables that are read from then on.
unfoldable pub load_variables : Library → Variables → String → Result Variables
unfolding env_file_path
load_variables lib getenv entry_path =
    let (path, explicit) = env_file_path lib getenv entry_path in
    let failed = plain "Error loading environment variables" in
    elim (lib.load_file path) [
      | loaded variables ↦ ok variables
      | missing ↦ if explicit then err failed else ok getenv
      | broken ↦ err failed
    ]

-- The literal of Load, with the two fields that depend on the repository type, and SMTP.
unfoldable pub settings_with : Library → Variables → Result (List ClientConfig) → Result Settings
unfolding normalize_port parse_cors_origins parse_comma_separated parse_scope_allowlist
    parse_redis_db parse_rate_limit_per_min parse_rate_limit_window parse_mongo_config
    parse_file_repository_config parse_smtp_config
settings_with lib getenv parsed_clients = do
  per_min ← parse_rate_limit_per_min (getenv "RATE_LIMIT_PER_MIN")
  window ← parse_rate_limit_window lib.parse_duration (getenv "RATE_LIMIT_WINDOW")
  db ← parse_redis_db (getenv "REDIS_DB")
  clients ← parsed_clients
  let used = getenv "REPOSITORY_USED"
  let on_mongo = str_eq used "mongo"
  ok (record {
    server = record {
      port = normalize_port (getenv "PORT");
      cors_origins = parse_cors_origins (getenv "CORS_ORIGINS");
      cookie_secure = str_eq (getenv "COOKIE_SECURE") "true";
      metrics_addr = getenv "METRICS_ADDR";
      rate_limit_per_min = per_min;
      rate_limit_window = window;
    };
    jwt = record {
      private_key_path = getenv "PRIVATE_KEY_PATH";
      public_key_path = getenv "PUBLIC_KEY_PATH";
      issuer = getenv "JWT_ISSUER";
      kid = getenv "JWT_KID";
    };
    repository_type = used;
    file_repository = if on_mongo then none else some (parse_file_repository_config getenv);
    mongo = if on_mongo then some (parse_mongo_config getenv) else none;
    redis = record { addr = getenv "REDIS_ADDR"; password = getenv "REDIS_PASSWORD"; db = db };
    oauth = record {
      clients = clients;
      post_logout_redirect_allowlist =
          parse_comma_separated (getenv "OAUTH_POST_LOGOUT_REDIRECT_ALLOWLIST");
      scope_allowlist = parse_scope_allowlist (getenv "OAUTH_SCOPE_ALLOWLIST");
    };
    smtp = parse_smtp_config getenv;
    app_base_url = getenv "APP_BASE_URL";
    crypto = record {
      email_encryption_key = getenv "EMAIL_ENCRYPTION_KEY";
      email_blind_index_key = getenv "EMAIL_BLIND_INDEX_KEY";
    };
  })

validated : Library → Settings → Result Settings
validated lib settings = elim (lib.validate settings) [ none ↦ ok settings | some e ↦ err e ]

-- Load, which once.Do runs once; `none` when the fuel is not enough for the clients.
unfoldable pub load : ℕ → Library → Variables → String → Option (Result Settings)
unfolding load_variables settings_with validated parse_client_configs
load fuel lib getenv entry_path = elim (load_variables lib getenv entry_path) [
  | err e ↦ some (err e)
  | ok variables ↦ elim (parse_client_configs fuel variables) [
    | none ↦ none
    | some clients ↦ some (settings_with lib variables clients >>= validated lib)
  ]
]
