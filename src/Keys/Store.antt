-- ===== src/Keys/Store.antt =====
-- The key store of internal/gateway/apikey.go: the table gw_api_keys, the cache in memory and the
-- operations on both. The cache is keyed by the hash of the secret.
use wa_gateway.Base.{
  ℕ, ◌+◌, String, Bool, false, not, ◌==◌, List, [], ◌∷◌, Option, none, some, ℤ, eqb, ltb,
  if◌then◌else◌, Result, ok, err, Assoc, lookup, insert, is_empty,
}
use wa_gateway.Keys.{KeyError, key_not_found, database_failed, ApiKey, KeyState}
use wa_gateway.Keys.Scopes.{split_scopes}

-- A row of gw_api_keys.
pub record KeyRow : Type 0 where
  pub id : String
  pub name : String
  pub key_hash : String
  pub prefix : String
  pub scopes : String
  pub rate_limit : ℤ
  pub rate_window_sec : ℤ
  pub max_sessions : ℤ
  pub enabled : ℕ
  pub expires_at : ℤ
  pub created_at : ℕ
  pub last_used_at : ℕ
  pub request_count : ℕ

pub record KeyStore : Type 0 where
  pub rows : List KeyRow
  pub cache : Assoc KeyState
  pub master_key : String
  pub def_rate_limit : ℤ
  pub def_rate_window : ℤ
  pub def_max_session : ℤ

-- Whether the statement and the SELECT of `reload` that follows it go through.
pub record DbAnswers : Type 0 where
  pub exec_ok : Bool
  pub select_ok : Bool

-- rows.Scan of one row, with the scopes split
abbrev pub row_key : KeyRow → ApiKey
row_key r = record {
  id = r.id;
  name = r.name;
  prefix = r.prefix;
  scopes = split_scopes r.scopes;
  rate_limit = r.rate_limit;
  rate_window_sec = r.rate_window_sec;
  max_sessions = r.max_sessions;
  enabled = not (eqb r.enabled 0);
  expires_at = r.expires_at;
  created_at = r.created_at;
  last_used_at = r.last_used_at;
  request_count = r.request_count;
  secret = "";
  master = false;
}

-- the state of a key that is read anew keeps the window and the usage of the one before it
abbrev pub carried : Option KeyState → ApiKey → KeyState
carried none k = record { key = k; win_start = 0; win_count = 0; usage_delta = 0; last_used = 0 }
carried (some prev) k = record prev { key = k }

-- the loop of `reload`
unfoldable pub reload_rows : Assoc KeyState → List KeyRow → Assoc KeyState → Assoc KeyState
reload_rows cache [] next = next
reload_rows cache (r ∷ rows) next =
    reload_rows cache rows (insert r.key_hash (carried (lookup r.key_hash cache) (row_key r)) next)

-- reload, with no other call between its SELECT and the new cache; the code holds the lock only to
-- look up the old states and to put the new cache in place
unfoldable pub reload : DbAnswers → KeyStore → KeyStore × Result KeyError (Unit {0})
reload db s =
    if db.select_ok
    then (record s { cache = reload_rows s.cache s.rows [] }, ok tt)
    else (s, err database_failed)

abbrev pub has_keys : KeyStore → Bool
has_keys s = not (is_empty s.cache)

abbrev pub with_usage : KeyState → ApiKey
with_usage st = record st.key {
  last_used_at = if ltb st.key.last_used_at st.last_used then st.last_used else st.key.last_used_at;
  request_count = st.key.request_count + st.usage_delta;
}

-- the loop of Get
unfoldable pub find_id : String → Assoc KeyState → Result KeyError ApiKey
find_id id [] = err key_not_found
find_id id ((h, st) ∷ cache) = if st.key.id == id then ok (with_usage st) else find_id id cache

abbrev pub get : String → KeyStore → Result KeyError ApiKey
get id s = find_id id s.cache

-- the loop of List, before it sorts by creation time
unfoldable pub list_cached : Assoc KeyState → List ApiKey
list_cached [] = []
list_cached ((h, st) ∷ cache) = with_usage st ∷ list_cached cache
