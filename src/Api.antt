-- ===== src/Api.antt =====
-- The HTTP layer's gate: `auth`, extractSecret and clientIP of internal/api/server.go. Every route but
-- /health and /version goes through `auth`; the handler that it wraps is a parameter.
pub mod Examples
pub mod Auth
pub mod Sessions
pub mod Params
pub mod Messages
pub mod Keys
pub mod Sends
pub mod Groups
pub mod Archived
pub mod Limit
use wa_gateway.Base.{
  ℕ, ◌-◌, String, Bool, true, false, not, ◌&&◌, ◌||◌, ◌==◌, List, [], ◌∷◌, Option, none, some, ltb,
  leb, eqb, if◌then◌else◌, is_positive, ℤ, trim, after_prefix, before_comma, before_last_colon,
}
use wa_gateway.Keys.{ApiKey, KeyError, key_disabled, key_expired, AuthReply, RateResult, has_scope}
use wa_gateway.Keys.Store.{KeyStore}
use wa_gateway.Keys.Auth.{authenticate_any, master_identity, auth_required}

-- What `auth` reads of a request; a header that is missing is empty.
pub record Request : Type 0 where
  pub x_api_key : String
  pub authorization : String
  pub x_forwarded_for : String
  pub x_real_ip : String
  pub remote_addr : String
  pub method : String
  pub path : String

-- AccessLogEntry, without the row's own number and time
pub record AccessLogEntry : Type 0 where
  pub key_id : String
  pub key_name : String
  pub method : String
  pub path : String
  pub status_code : ℕ
  pub latency_ms : ℕ
  pub ip : String

-- the clock's readings: before the secret is tried, for Retry-After, and for the entry
pub record Clock : Type 0 where
  pub now : ℕ
  pub later : ℕ
  pub latency : ℕ

-- extractSecret
unfoldable pub extract_secret : Request → String
extract_secret r =
    if not (r.x_api_key == "")
    then r.x_api_key
    else elim (after_prefix "Bearer " r.authorization) [ some token ↦ trim token | none ↦ "" ]

-- clientIP
unfoldable pub client_ip : Request → String
client_ip r =
    if not (r.x_forwarded_for == "")
    then trim (before_comma r.x_forwarded_for)
    else if not (r.x_real_ip == "")
    then r.x_real_ip
    else elim (before_last_colon r.remote_addr) [ some host ↦ host | none ↦ r.remote_addr ]

-- What a request comes to. A `status` of `none` is a panic, which net/http answers by closing the
-- connection; `ran` is the identity under which the handler ran.
pub record Served : Type 0 where
  pub status : Option ℕ
  pub ran : Option ApiKey
  pub logged : Option AccessLogEntry
  -- the headers X-RateLimit-Limit, -Remaining and -Reset, and Retry-After
  pub rate : Option RateResult
  pub retry : Option ℕ

abbrev pub answered : ℕ → Served
answered status = record {
  status = some status;
  ran = none;
  logged = none;
  rate = none;
  retry = none;
}

-- a nil *APIKey is read
abbrev pub panicked : Served
panicked = record { status = none; ran = none; logged = none; rate = none; retry = none }

abbrev pub entry : Request → Clock → String → String → ℕ → AccessLogEntry
entry r clock id name status = record {
  key_id = id;
  key_name = name;
  method = r.method;
  path = r.path;
  status_code = status;
  latency_ms = clock.latency;
  ip = client_ip r;
}

-- writeError for the errors of Authenticate
abbrev pub error_status : KeyError → ℕ
error_status key_disabled = 403
error_status key_expired = 403
error_status _ = 401

-- Retry-After, in seconds
abbrev pub retry_after : RateResult → ℕ → ℕ
retry_after rr now = if ltb (rr.reset_at - now) 1 then 1 else rr.reset_at - now

abbrev pub rate_headers : RateResult → Option RateResult
rate_headers rr = if is_positive rr.limit then some rr else none

-- the branch `!rr.Allowed`, which reads `key.ID` after the answer 429
unfoldable pub limited : Request → Clock → RateResult → Option ApiKey → Served
limited r clock rr none = panicked
limited r clock rr (some key) = record {
  status = some 429;
  ran = none;
  logged = some (entry r clock key.id key.name 429);
  rate = rate_headers rr;
  retry = some (retry_after rr clock.later);
}

-- the branch of a key that is let in
unfoldable pub granted :
    String → (ApiKey → ℕ) → Request → Clock → RateResult → Option ApiKey → Served
granted scope next r clock rr none = panicked
granted scope next r clock rr (some key) =
    if not (has_scope key scope) then record (answered 403) { rate = rate_headers rr } else record {
      status = some (next key);
      ran = some key;
      logged = some (entry r clock key.id key.name (next key));
      rate = rate_headers rr;
      retry = none;
    }

-- what follows the reply of Authenticate
unfoldable pub settle_reply : String → (ApiKey → ℕ) → Request → Clock → AuthReply → Served
settle_reply scope next r clock reply = elim reply.error [
  | some e ↦ answered (error_status e)
  | none ↦
      if not reply.rate.allowed
      then limited r clock reply.rate reply.key
      else granted scope next r clock reply.rate reply.key
]

-- auth
unfoldable pub auth :
    (String → String) → String → (ApiKey → ℕ) → Request → Clock → KeyStore → KeyStore × Served
auth hash_secret scope next r clock keys =
    if not (auth_required keys)
    then (
      keys,
      record {
        status = some (next master_identity);
        ran = some master_identity;
        logged = some (entry r clock "master" "master" (next master_identity));
        rate = none;
        retry = none;
      },
    )
    else if extract_secret r == ""
    then (keys, answered 401)
    else let found = authenticate_any hash_secret clock.now (extract_secret r) keys in
      (found.0, settle_reply scope next r clock found.1)
