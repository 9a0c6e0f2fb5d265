-- ===== src/Keys/Examples.antt =====
-- The theorems on API keys at concrete stores; secrets are their own hashes here.
use wa_gateway.Base.{
  ℕ, String, ◌≡◌, ◌≤◌, refl, arith, true, false, [], ◌∷◌, some, none, pos, lookup, insert,
  lookup-nil, trim, split_comma, ne_of_test,
}
use wa_gateway.Base.Bytes.{take_text}
use wa_gateway.Keys.{ApiKey, KeyState, key_invalid, refused, scope_all}
use wa_gateway.Keys.Window.{IsLive, admitted, admitted-window, admitted_burst}
use wa_gateway.Keys.Scopes.{split_scopes, join_scopes, split_scopes-join_scopes}
use wa_gateway.Keys.Store.{KeyRow, KeyStore, DbAnswers, row_key, reload, reload_rows, find_id}
use wa_gateway.Keys.Manage.{CreateOptions, create, new_row, rotate, delete}
use wa_gateway.Keys.Auth.{authenticate}
use wa_gateway.Keys.Reloaded.{last_hash}
use wa_gateway.Keys.Secrets.{IsCoherent, authenticate-create}
use wa_gateway.Keys.Revoked.{IsUnique, authenticate-delete, authenticate-rotate_old}

abbrev plain : String → String
plain s = s

abbrev limited_key : ApiKey
limited_key = record {
  id = "k1";
  name = "toko";
  prefix = "wag_12345678";
  scopes = "send" ∷ "read" ∷ [];
  rate_limit = pos 2;
  rate_window_sec = pos 10;
  max_sessions = pos 0;
  enabled = true;
  expires_at = pos 0;
  created_at = 5;
  last_used_at = 0;
  request_count = 0;
  secret = "";
  master = false;
}

abbrev open_window : KeyState
open_window = record {
  key = limited_key;
  win_start = 100;
  win_count = 1;
  usage_delta = 1;
  last_used = 100;
}

live : (t : ℕ) → IsLive limited_key t
live t = record { on = refl; current = refl; limited = refl }

admitted-window_example : admitted (101 ∷ 105 ∷ 109 ∷ []) open_window ≡ 1
admitted-window_example =
    admitted-window (101 ∷ 105 ∷ 109 ∷ []) open_window (λ e. absurd (ground arith))
      (live 101, (live 105, (live 109, tt))) (omega arith, (omega arith, (omega arith, tt)))

admitted_burst_example : admitted (105 ∷ 109 ∷ 112 ∷ []) open_window ≤ 4
admitted_burst_example =
    admitted_burst 104 (105 ∷ 109 ∷ 112 ∷ []) open_window (omega arith)
      (live 105, (live 109, (live 112, tt)))
      ((omega arith, omega arith), ((omega arith, omega arith), ((omega arith, omega arith), tt)))

split_scopes-join_scopes_example :
    split_scopes (join_scopes ("send" ∷ "read" ∷ [])) ≡ "send" ∷ "read" ∷ []
unfolding trim
split_scopes-join_scopes_example = split_scopes-join_scopes ("send" ∷ "read" ∷ []) (
  record {
    nonempty = ne_of_test "send" "" refl;
    no_comma = (refl, (refl, (refl, (refl, tt))));
    tight = refl;
  },
  (
    record {
      nonempty = ne_of_test "read" "" refl;
      no_comma = (refl, (refl, (refl, (refl, tt))));
      tight = refl;
    },
    tt,
  ),
)

abbrev all_well : DbAnswers
all_well = record { exec_ok = true; select_ok = true }

abbrev empty_store : KeyStore
empty_store = record {
  rows = [];
  cache = [];
  master_key = "";
  def_rate_limit = pos 0;
  def_rate_window = pos 60;
  def_max_session = pos 0;
}

abbrev shop : CreateOptions
shop = record {
  name = "toko";
  scopes = [];
  rate_limit = pos 2;
  rate_window_sec = pos 10;
  max_sessions = pos 0;
  expires_at = pos 500;
}

empty_store-IsCoherent : IsCoherent empty_store
empty_store-IsCoherent = record { missing = λ h e. lookup-nil h }

abbrev created : ApiKey
created = record {
  id = "k1";
  name = "toko";
  prefix = "wag_12345678";
  scopes = scope_all ∷ [];
  rate_limit = pos 2;
  rate_window_sec = pos 10;
  max_sessions = pos 0;
  enabled = true;
  expires_at = pos 500;
  created_at = 100;
  last_used_at = 0;
  request_count = 0;
  secret = "wag_123456789";
  master = false;
}

authenticate-create_example :
    let reply =
      (authenticate plain 120 "wag_123456789"
        (create plain all_well (some "123456789") "k1" 100 shop empty_store).0).1 in
    (reply.error ≡ none)
    × (reply.rate.allowed ≡ true)
    × (reply.key ≡ some (row_key (new_row plain empty_store shop "k1" "123456789" 100)))
unfolding create reload take_text
authenticate-create_example =
    authenticate-create plain all_well "123456789" "k1" 100 120 shop empty_store created
      empty_store-IsCoherent refl refl

abbrev row : String → String → KeyRow
row id hash = record {
  id = id;
  name = id;
  key_hash = hash;
  prefix = "wag_";
  scopes = "*";
  rate_limit = pos 0;
  rate_window_sec = pos 60;
  max_sessions = pos 0;
  enabled = 1;
  expires_at = pos 0;
  created_at = 5;
  last_used_at = 0;
  request_count = 0;
}

abbrev two_keys : KeyStore
two_keys = record empty_store { rows = row "k1" "wag_a" ∷ row "k2" "wag_b" ∷ [] }

two_keys-IsUnique : IsUnique two_keys.rows
two_keys-IsUnique = (((ne_of_test "k2" "k1" refl, ne_of_test "wag_b" "wag_a" refl), tt), (tt, tt))

authenticate-delete_example :
    authenticate plain 120 "wag_a" (delete all_well "k1" two_keys).0
    ≡ ((delete all_well "k1" two_keys).0, refused key_invalid)
unfolding delete last_hash reload
authenticate-delete_example =
    authenticate-delete plain all_well two_keys "wag_a" (row "k1" "wag_a") 120 two_keys-IsUnique
      refl refl

abbrev rotated_key : ApiKey
rotated_key = record {
  id = "k1";
  name = "k1";
  prefix = "wag_c";
  scopes = scope_all ∷ [];
  rate_limit = pos 0;
  rate_window_sec = pos 60;
  max_sessions = pos 0;
  enabled = true;
  expires_at = pos 0;
  created_at = 5;
  last_used_at = 0;
  request_count = 0;
  secret = "wag_c";
  master = false;
}

authenticate-rotate_old_example :
    authenticate plain 120 "wag_a" (rotate plain all_well (some "c") "k1" two_keys).0
    ≡ ((rotate plain all_well (some "c") "k1" two_keys).0, refused key_invalid)
unfolding rotate last_hash reload take_text find_id reload_rows insert lookup split_scopes
    split_comma trim
authenticate-rotate_old_example =
    authenticate-rotate_old plain all_well "c" two_keys rotated_key "wag_a" (row "k1" "wag_a") 120
      two_keys-IsUnique refl (ne_of_test "wag_c" "wag_a" refl) refl
