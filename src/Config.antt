-- ===== src/Config.antt =====
-- The configuration: internal/config/config.go but for WantsEvent, which stands with the webhook. The
-- environment is an argument; a variable that is empty counts as missing.
pub mod Examples
use wa_gateway.Base.{
  String, Bool, true, false, ◌||◌, ◌==◌, List, [], ◌∷◌, Option, none, some, ℤ, pos, map, trim,
  split_comma, if◌then◌else◌,
}
use wa_gateway.Keys.Scopes.{trimmed_parts}
use wa_gateway.Api.Params.{parse_int}

pub record Config : Type 0 where
  pub port : String
  pub api_key : String
  pub webhook_url : String
  pub webhook_events : List String
  pub store_dir : String
  pub database_url : String
  pub download_media : Bool
  pub max_download_byte : ℤ
  pub store_media : Bool
  pub media_dir : String
  pub media_backend : String
  pub s3_endpoint : String
  pub s3_bucket : String
  pub s3_access_key : String
  pub s3_secret_key : String
  pub s3_use_ssl : Bool
  pub s3_region : String
  pub log_level : String
  pub default_country_code : String
  pub default_rate_limit : ℤ
  pub default_rate_window_sec : ℤ
  pub default_max_sessions : ℤ
  pub store_messages : Bool
  pub message_retention_days : ℤ
  pub store_chats : List String
  pub store_chats_exclude : List String
  pub access_log_retention_days : ℤ
  pub bulk_min_delay_ms : ℤ
  pub bulk_max_delay_ms : ℤ
  pub bulk_auto_resume : Bool
  pub group_quiet_hours : ℤ
  pub group_create_cooldown_hours : ℤ
  pub webhook_workers : ℤ
  pub webhook_queue_size : ℤ
  pub webhook_max_retries : ℤ
  pub webhook_backoff_ms : ℤ

abbrev is_one_of : String → List String → Bool
is_one_of v [] = false
is_one_of v (w ∷ words) = v == w || is_one_of v words

-- strconv.ParseBool
abbrev parse_bool : String → Option Bool
parse_bool v =
    if is_one_of v ("1" ∷ "t" ∷ "T" ∷ "true" ∷ "TRUE" ∷ "True" ∷ [])
    then some true
    else if is_one_of v ("0" ∷ "f" ∷ "F" ∷ "false" ∷ "FALSE" ∷ "False" ∷ [])
    then some false
    else none

abbrev or_fallback {ℓ} : {A : Type ℓ} → Option A → A → A
or_fallback none fallback = fallback
or_fallback (some a) fallback = a

-- splitList
unfoldable pub split_list : String → List String
split_list s = if trim s == "" then [] else trimmed_parts (split_comma s)

module _ (environment : String → Option String) where
  -- a variable that is set and not empty, read with `read`
  abbrev read_env {ℓ} : {A : Type ℓ} → (String → Option A) → String → A → A
  read_env read key fallback = elim (environment key) [
    | none ↦ fallback
    | some v ↦ if v == "" then fallback else or_fallback (read v) fallback
  ]

  abbrev pub get_env : String → String → String
  get_env = read_env some

  -- getEnvInt, and getEnvInt64, as an int has 64 bits
  abbrev pub get_env_int : String → ℤ → ℤ
  get_env_int = read_env parse_int

  abbrev pub get_env_bool : String → Bool → Bool
  get_env_bool = read_env parse_bool

  -- Load
  unfoldable pub load_config : Config
  load_config = record {
    port = get_env "PORT" "3000";
    api_key = get_env "API_KEY" "";
    webhook_url = get_env "WEBHOOK_URL" "";
    webhook_events = map trim (split_comma (get_env "WEBHOOK_EVENTS" "message"));
    store_dir = get_env "STORE_DIR" "./data";
    database_url = get_env "DATABASE_URL" "";
    download_media = get_env_bool "DOWNLOAD_MEDIA" true;
    max_download_byte = get_env_int "MAX_DOWNLOAD_BYTES" (pos 209715200);
    store_media = get_env_bool "STORE_MEDIA" false;
    media_dir = get_env "MEDIA_DIR" "";
    media_backend = get_env "MEDIA_BACKEND" "disk";
    s3_endpoint = get_env "S3_ENDPOINT" "";
    s3_bucket = get_env "S3_BUCKET" "";
    s3_access_key = get_env "S3_ACCESS_KEY" "";
    s3_secret_key = get_env "S3_SECRET_KEY" "";
    s3_use_ssl = get_env_bool "S3_USE_SSL" false;
    s3_region = get_env "S3_REGION" "";
    log_level = get_env "LOG_LEVEL" "INFO";
    default_country_code = get_env "DEFAULT_COUNTRY_CODE" "";
    default_rate_limit = get_env_int "DEFAULT_RATE_LIMIT" (pos 0);
    default_rate_window_sec = get_env_int "DEFAULT_RATE_WINDOW_SEC" (pos 60);
    default_max_sessions = get_env_int "DEFAULT_MAX_SESSIONS" (pos 0);
    store_messages = get_env_bool "STORE_MESSAGES" false;
    message_retention_days = get_env_int "MESSAGE_RETENTION_DAYS" (pos 0);
    store_chats = split_list (get_env "STORE_CHATS" "");
    store_chats_exclude = split_list (get_env "STORE_CHATS_EXCLUDE" "");
    access_log_retention_days = get_env_int "ACCESS_LOG_RETENTION_DAYS" (pos 7);
    bulk_min_delay_ms = get_env_int "BULK_MIN_DELAY_MS" (pos 3000);
    bulk_max_delay_ms = get_env_int "BULK_MAX_DELAY_MS" (pos 6000);
    bulk_auto_resume = get_env_bool "BULK_AUTO_RESUME" true;
    group_quiet_hours = get_env_int "GROUP_QUIET_HOURS" (pos 48);
    group_create_cooldown_hours = get_env_int "GROUP_CREATE_COOLDOWN_HOURS" (pos 24);
    webhook_workers = get_env_int "WEBHOOK_WORKERS" (pos 4);
    webhook_queue_size = get_env_int "WEBHOOK_QUEUE_SIZE" (pos 1000);
    webhook_max_retries = get_env_int "WEBHOOK_MAX_RETRIES" (pos 3);
    webhook_backoff_ms = get_env_int "WEBHOOK_BACKOFF_MS" (pos 2000);
  }
