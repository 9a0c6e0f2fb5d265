-- ===== src/Api/Examples.antt =====
-- The theorems on the gate and the sessions' handlers at concrete requests, and runs of the others.
use wa_gateway.Base.{
  ℕ, ◌≤◌, List, String, ◌≡◌, ◌⊎◌, refl, arith, true, false, [], ◌∷◌, some, pos, negsuc, lookup,
  after_prefix, trim, trim_left, trim_right, is_space, has_suffix,
}
use wa_gateway.Keys.{ApiKey, KeyState, admit, has_scope}
use wa_gateway.Keys.Store.{KeyStore}
use wa_gateway.Keys.Auth.{authenticate_any, authenticate, auth_required, master_identity}
use wa_gateway.Api.{Request, Clock, extract_secret, auth, settle_reply, granted, panicked, entry}
use wa_gateway.Manager.{ManagerState, session_count_by_key}
use wa_gateway.Retention.{Tables}
use wa_gateway.Phone.Recipient.{JidError, not_a_group}
use wa_gateway.Groups.{cooldown, name_too_long, not_logged_in, bad_group, call_failed}
use wa_gateway.Base.Text.{contains}
use wa_gateway.Api.Groups.{group_err_status}
use wa_gateway.Api.Params.{parse_access_log_query, parse_int, digits_value}
use wa_gateway.Api.Messages.{handle_message_status, trimmed_ids}
use wa_gateway.Api.Archived.{handle_set_group_archive}
use wa_gateway.Api.Sessions.{refused}
use wa_gateway.Api.Limit.{SessionRequest, to_create, serve_all, serve_all-owned}
use wa_gateway.Api.Auth.{IsHolder, auth_ran, auth_over_limit}

abbrev plain : String → String
plain s = s

abbrev sender_key : ApiKey
sender_key = record {
  id = "k1";
  name = "toko";
  prefix = "wag_12345678";
  scopes = "send" ∷ [];
  rate_limit = pos 2;
  rate_window_sec = pos 10;
  max_sessions = pos 0;
  enabled = true;
  expires_at = pos 0;
  created_at = 5;
  last_used_at = 0;
  request_count = 0;
  secret = "";
  master = false;
}

abbrev with_uses : ℕ → KeyState
with_uses n = record {
  key = sender_key;
  win_start = 100;
  win_count = n;
  usage_delta = n;
  last_used = 100;
}

abbrev keys_used : ℕ → KeyStore
keys_used n = record {
  rows = [];
  cache = ("wag_a", with_uses n) ∷ [];
  master_key = "";
  def_rate_limit = pos 0;
  def_rate_window = pos 60;
  def_max_session = pos 0;
}

abbrev send_request : Request
send_request = record {
  x_api_key = "wag_a";
  authorization = "";
  x_forwarded_for = "";
  x_real_ip = "10.0.0.7";
  remote_addr = "127.0.0.1:4000";
  method = "POST";
  path = "/send/text";
}

abbrev clock : Clock
clock = record { now = 103; later = 103; latency = 5 }

auth_ran_example :
    ((auth_required (keys_used 1) ≡ false) × (sender_key ≡ master_identity))
    ⊎ ((auth_required (keys_used 1) ≡ true)
        × (has_scope sender_key "send" ≡ true)
        × IsHolder plain 103 (extract_secret send_request) (keys_used 1) sender_key
        × ((auth plain "send" (λ _. 200) send_request clock (keys_used 1)).1.logged
            ≡ some (entry send_request clock "k1" "toko" 200)))
unfolding auth settle_reply granted authenticate_any authenticate admit lookup extract_secret
    has_scope
auth_ran_example = auth_ran plain "send" (λ _. 200) send_request clock (keys_used 1) sender_key refl

auth_over_limit_example :
    (auth plain "send" (λ _. 200) send_request clock (keys_used 2)).1 ≡ panicked
unfolding extract_secret lookup
auth_over_limit_example =
    auth_over_limit plain "send" (λ _. 200) send_request clock (keys_used 2) (with_uses 2) refl refl
      refl refl refl refl (omega arith)

abbrev two_sessions_key : ApiKey
two_sessions_key = record sender_key { max_sessions = pos 2 }

abbrev three_creations : List SessionRequest
three_creations =
    to_create true true (some two_sessions_key) (some "a")
    ∷ to_create true false (some two_sessions_key) (some "b")
    ∷ to_create true true (some two_sessions_key) (some "c")
    ∷ []

abbrev no_sessions : ManagerState
no_sessions = record { rows = []; sessions = []; next = 0 }

abbrev no_tables : Tables
no_tables = record {
  messages = [];
  receipts = [];
  archive = record { rows = []; set = [] };
  objects = [];
}

serve_all-owned_example :
    session_count_by_key "k1" (serve_all three_creations (no_sessions, no_tables)).0 ≤ 2
serve_all-owned_example =
    serve_all-owned "k1" 1 three_creations no_sessions no_tables refl
      ((λ e. (refl, refl)), ((λ e. (refl, refl)), ((λ e. (refl, refl)), tt))) (omega arith)

-- Runs of the other handlers.
abbrev describe_any : JidError → String
describe_any e = "invalid"

cooldown_status :
    (group_err_status describe_any cooldown ≡ 429)
    × (group_err_status describe_any name_too_long ≡ 400)
    × (group_err_status describe_any not_logged_in ≡ 409)
    × (group_err_status describe_any (bad_group not_a_group) ≡ 400)
    × (group_err_status describe_any
          (call_failed (record { is_rate_limit = true; message = "429 rate-overlimit" }))
        ≡ 502)
unfolding group_err_status contains after_prefix
cooldown_status = (refl, refl, refl, refl, refl)

limits_read :
    ((parse_access_log_query "k1" "50" "-7").limit ≡ pos 50)
    × ((parse_access_log_query "k1" "-5" "-7").limit ≡ pos 100)
    × ((parse_access_log_query "k1" "9223372036854775808" "-7").limit ≡ pos 100)
    × ((parse_access_log_query "k1" "5o" "-7").since ≡ negsuc 6)
unfolding parse_int digits_value
limits_read = (refl, refl, refl, refl)

ids_trimmed : handle_message_status true true (some ("s", " " ∷ "" ∷ [])) [] ≡ refused 400
unfolding handle_message_status trimmed_ids trim trim_left trim_right is_space
ids_trimmed = refl

archive_of_group :
    (handle_set_group_archive
      (λ _. true)
      true
      9
      "1@s.whatsapp.net"
      (some ("s", some true))
      no_tables.archive).0
    ≡ refused 400
unfolding handle_set_group_archive has_suffix
archive_of_group = refl
